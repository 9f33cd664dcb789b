-- ===== src/Storage/Contents/Laws.antt =====
-- `MemoryStore` keeps the contract of a `Storage`.
use Prim.Native.Char.{nul}
use mathlib.Core.Path.{ap₂}
use nap_cat_qq_rs.Prelude.{
  ℕ, String, ◌==◌, ◌≡◌, refl, ap, ◌∙◌, false, Option, none, some, List, [], ◌∷◌, Result, ok, err,
  arith, is_some, if◌then◌else◌,
}
use nap_cat_qq_rs.Text.{is_blank}
use nap_cat_qq_rs.Text.Split.{contains}
use nap_cat_qq_rs.Storage
use nap_cat_qq_rs.Storage.{
  StorageError, validation, StoredRecord, MemoryStore, validate_namespace,
  validate_namespace_and_key, stored, qualified_key,
}
use nap_cat_qq_rs.Storage.Laws.{IsName, written, put_lem, remove_lem, entry-stored, entry-removed}
use nap_cat_qq_rs.Storage.Listing.{clear_lem, get-others}
use nap_cat_qq_rs.Storage.Contents.{
  Request, put, get, remove, clear, done, found, removed_one, IsPlain, ArePlain, Contents, refusal,
  update, guarded, contract, promised, call, answers, Holds, Keeps,
}

abbrev pub verdict : Option StorageError → Result StorageError (Unit {0})
verdict none = ok tt
verdict (some e) = err e

pub check :
    (namespace key : String) (o : Option StorageError)
    → refusal namespace key ≡ o
    → validate_namespace_and_key namespace key ≡ verdict o
unfolding validate_namespace_and_key
check namespace key o e = ground (arith, e)

pub check_namespace :
    (namespace : String) (o : Option StorageError)
    → refusal namespace "any" ≡ o
    → validate_namespace namespace ≡ verdict o
unfolding validate_namespace is_blank
check_namespace namespace o e = ground (arith, e)

module _ {Value : Type 0} (store : MemoryStore Value) (contents : Contents Value)
    (holds : Holds store contents) where
  -- A refused call.
  put_refused :
      (a k : String) (value : Value) (now later : ℕ) (e : StorageError)
      → validate_namespace_and_key a k ≡ err e
      → Storage.put store a k value now later ≡ (err e, store)
  unfolding Storage.put
  put_refused a k value now later e h = rw (Storage.put, h) refl

  remove_refused :
      (a k : String) (e : StorageError)
      → validate_namespace_and_key a k ≡ err e
      → Storage.remove store a k ≡ (err e, store)
  unfolding Storage.remove
  remove_refused a k e h = rw (Storage.remove, h) refl

  clear_refused :
      (a : String) (e : StorageError)
      → validate_namespace a ≡ err e
      → Storage.clear_namespace store a ≡ (err e, store)
  unfolding Storage.clear_namespace
  clear_refused a e h = rw (Storage.clear_namespace, h) refl

  put-Keeps :
      (a k : String) (value : Value) (now later : ℕ) (o : Option StorageError)
      → refusal a k ≡ o
      → contains nul a ≡ false
      → Keeps (call (put a k value now later) store) (
          guarded o contents done
            (update a k (some (written (contents a k) a k value now later)) contents))
  put-Keeps a k value now later none e plain =
      let name : IsName a k = record { accepted = check a k none e; plain = plain } in
      rw (put_lem store a k value now later name) (
        refl,
        λ n l p.
            entry-stored store a k n l value now later plain p
            ∙ rw (holds a k plain, holds n l p) refl,
      )
  put-Keeps a k value now later (some error) e plain =
      rw (put_refused a k value now later error (check a k (some error) e)) (refl, holds)

  get-Keeps :
      (a k : String) (o : Option StorageError)
      → refusal a k ≡ o
      → contains nul a ≡ false
      → Keeps (call (get a k) store) (guarded o contents (found (contents a k)) contents)
  unfolding Storage.get
  get-Keeps a k none e plain = rw (check a k none e, holds a k plain) (refl, holds)
  get-Keeps a k (some error) e plain = rw (check a k (some error) e) (refl, holds)

  remove-Keeps :
      (a k : String) (o : Option StorageError)
      → refusal a k ≡ o
      → contains nul a ≡ false
      → Keeps
          (call (remove a k) store)
          (guarded o contents (removed_one (is_some (contents a k))) (update a k none contents))
  remove-Keeps a k none e plain =
      let name : IsName a k = record { accepted = check a k none e; plain = plain } in
      rw (remove_lem store a k name) (
        ap (λ r. ok (removed_one (is_some r))) (holds a k plain),
        λ n l p. entry-removed store a k n l plain p ∙ rw (holds n l p) refl,
      )
  remove-Keeps a k (some error) e plain =
      rw (remove_refused a k error (check a k (some error) e)) (refl, holds)

  clear-Keeps :
      (a : String) (o : Option StorageError)
      → refusal a "any" ≡ o
      → contains nul a ≡ false
      → Keeps
          (call (clear a) store)
          (guarded o contents done (λ n k. if n == a then none else contents n k))
  clear-Keeps a none e plain =
      rw (clear_lem a plain store (check_namespace a none e))
        (refl, λ n l p. get-others a plain store.values n l p ∙ rw (holds n l p) refl)
  clear-Keeps a (some error) e plain =
      rw (clear_refused a error (check_namespace a (some error) e)) (refl, holds)

call-Keeps :
    {Value : Type 0} (request : Request Value) (store : MemoryStore Value)
    (contents : Contents Value)
    → IsPlain request
    → Holds store contents
    → Keeps (call request store) (contract request contents)
call-Keeps (put a k value now later) store contents plain holds =
    put-Keeps store contents holds a k value now later _ refl plain
call-Keeps (get a k) store contents plain holds = get-Keeps store contents holds a k _ refl plain
call-Keeps (remove a k) store contents plain holds =
    remove-Keeps store contents holds a k _ refl plain
call-Keeps (clear a) store contents plain holds = clear-Keeps store contents holds a _ refl plain

-- Through every history of `put`, `get`, `remove` and `clear_namespace` on namespaces in which no NUL
-- stands, `MemoryStore` answers as a partial map of pairs of a namespace and a key does that refuses
-- blank namespaces and keys: one that begins with what the store holds.
pub history_promised :
    {Value : Type 0} (requests : List (Request Value)) (store : MemoryStore Value)
    (contents : Contents Value)
    → ArePlain requests
    → Holds store contents
    → answers requests store ≡ promised requests contents
history_promised [] store contents plain holds = refl
history_promised (request ∷ requests) store contents (plain, rest) holds =
    let (same, kept) = call-Keeps request store contents plain holds in
    ap₂ ◌∷◌ same
      (history_promised requests (call request store).1 (contract request contents).1 rest kept)
