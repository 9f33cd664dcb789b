-- ===== src/Storage/Contents/Tests.antt =====
-- A history of a new `MemoryStore`.
use nap_cat_qq_rs.Prelude.{ℕ, ◌≡◌, refl, true, none, List, [], ◌∷◌, ok, err}
use nap_cat_qq_rs.Text.{is_blank}
use nap_cat_qq_rs.Text.Split.{contains}
use nap_cat_qq_rs.HashMap
use nap_cat_qq_rs.Storage.{MemoryStore, validation}
use nap_cat_qq_rs.Storage.Contents.{
  Request, put, get, remove, clear, done, found, removed_one, answers, promised,
}
use nap_cat_qq_rs.Storage.Contents.Laws.{history_promised}

abbrev new_store : MemoryStore ℕ
new_store = record { values = [] }

abbrev history : List (Request ℕ)
history =
    put "qq" "a" 1 10 11 ∷ put "" "a" 2 12 13 ∷ clear "wx" ∷ remove "qq" "a" ∷ get "qq" "a" ∷ []

history_promised_example : answers history new_store ≡ promised history (λ n k. none)
unfolding contains HashMap.get
history_promised_example =
    history_promised history new_store (λ n k. none) (refl, (refl, (refl, (refl, (refl, tt)))))
      (λ n k p. refl)

promised_answers :
    promised history (λ n k. none)
    ≡ ok done
      ∷ err (validation "namespace cannot be empty")
      ∷ ok done
      ∷ ok (removed_one true)
      ∷ ok (found none)
      ∷ []
unfolding is_blank
promised_answers = refl
