-- ===== src/QqClient/Endpoint/Laws.antt =====
-- What `normalize_tcp_endpoint` of napcat-rs/crates/qq-client answers.
use Prim.Native.Char.{code}
use nap_cat_qq_rs.Text.Blank.{cons-ne-empty}
use nap_cat_qq_rs.Prelude.{
  Char, String, ◌==◌, ◌≡◌, refl, true, false, ok, arith, unwrap_or, eqb, Bool-cases, inl, inr,
}
use nap_cat_qq_rs.Text.{trim, trim_start, trim_end, is_blank, is_whitespace}
use nap_cat_qq_rs.Text.Split.{contains}
use nap_cat_qq_rs.QqClient.Endpoint.{after_scheme, before, check_host, normalize_tcp_endpoint}

contains-before_self : (c : Char) (s : String) → contains c (before c s) ≡ false
unfolding contains before
contains-before_self c String.[] = refl
contains-before_self c (String.◌∷◌ d s) = elim (Bool-cases (eqb (code d) (code c))) [
  | inl hit ↦ rw hit
  | inr miss ↦ rw (miss, contains) (rw miss (contains-before_self c s))
]

contains-before : (c d : Char) (s : String) → contains d s ≡ false → contains d (before c s) ≡ false
unfolding contains before
contains-before c d String.[] h = refl
contains-before c d (String.◌∷◌ e s) h = elim (Bool-cases (eqb (code e) (code c))) [
  | inl hit ↦ rw hit
  | inr miss ↦ rw (miss, contains) (ground (arith, contains-before c d s))
]

check_host-ok :
    (host answer : String)
    → check_host host ≡ ok answer
    → (answer ≡ host) × (is_blank host ≡ false) × (contains ":" host ≡ true)
unfolding check_host
check_host-ok host answer h = ground arith

normalized :
    (raw host : String)
    → normalize_tcp_endpoint raw ≡ ok host
    → (s : String) × (check_host (before "/" (before "?" s)) ≡ ok host)
unfolding normalize_tcp_endpoint
normalized raw host h = (unwrap_or (after_scheme (trim raw)) (trim raw), ground arith)

-- An address that `normalize_tcp_endpoint` accepts is not blank, has a colon, and has neither a slash
-- nor a question mark.
pub normalize_shape :
    (raw host : String)
    → normalize_tcp_endpoint raw ≡ ok host
    → (is_blank host ≡ false)
      × (contains ":" host ≡ true)
      × (contains "/" host ≡ false)
      × (contains "?" host ≡ false)
normalize_shape raw host h =
    let (s, e) = normalized raw host h in
    let (same, visible, colon) = check_host-ok (before "/" (before "?" s)) host e in
    rw same (
      visible,
      colon,
      contains-before_self "/" (before "?" s),
      contains-before "/" "?" (before "?" s) (contains-before_self "?" s),
    )

-- An address as a `tcp` URL.
abbrev pub tcp_url : String → String
tcp_url host =
    String.◌∷◌ "t"
      (String.◌∷◌ "c" (String.◌∷◌ "p" (String.◌∷◌ ":" (String.◌∷◌ "/" (String.◌∷◌ "/" host)))))

before_absent : (c : Char) (s : String) → contains c s ≡ false → before c s ≡ s
unfolding contains before
before_absent c String.[] h = refl
before_absent c (String.◌∷◌ d s) h = ground (arith, before_absent c s)

trim_end_cons :
    (c : Char) (s : String)
    → trim_end s ≡ s
    → (s == "") ≡ false
    → trim_end (String.◌∷◌ c s) ≡ String.◌∷◌ c s
unfolding trim_end
trim_end_cons c s h k = rw (h, k) (ground arith)

trim_end-tcp_url :
    (host : String)
    → trim_end host ≡ host
    → (host == "") ≡ false
    → trim_end (tcp_url host) ≡ tcp_url host
trim_end-tcp_url host h k =
    let cut = λ (c d : Char) (s : String) (e : trim_end (String.◌∷◌ d s) ≡ String.◌∷◌ d s).
      trim_end_cons c (String.◌∷◌ d s) e (cons-ne-empty d s) in
    cut "t" "c" _
      (cut "c" "p" _ (cut "p" ":" _ (cut ":" "/" _ (cut "/" "/" _ (trim_end_cons "/" host h k)))))

trim-tcp_url :
    (host : String)
    → trim_end host ≡ host
    → (host == "") ≡ false
    → trim (tcp_url host) ≡ tcp_url host
unfolding trim trim_start is_whitespace
trim-tcp_url host h k = trim_end-tcp_url host h k

visible-ne-empty : (host : String) → is_blank host ≡ false → (host == "") ≡ false
unfolding is_blank trim trim_start trim_end
visible-ne-empty String.[] h = cc
visible-ne-empty (String.◌∷◌ c s) h = cons-ne-empty c s

is_blank-tcp_url :
    (host : String) → trim (tcp_url host) ≡ tcp_url host → is_blank (tcp_url host) ≡ false
unfolding is_blank
is_blank-tcp_url host h = rw h (cons-ne-empty "t" _)

-- The `tcp` URL of a host is normalised to the host, if the host is not blank, has a colon, neither a
-- slash nor a question mark, and no white space at its end.
pub normalize-tcp_url :
    (host : String)
    → is_blank host ≡ false
    → trim_end host ≡ host
    → contains ":" host ≡ true
    → contains "/" host ≡ false
    → contains "?" host ≡ false
    → normalize_tcp_endpoint (tcp_url host) ≡ ok host
unfolding normalize_tcp_endpoint check_host
normalize-tcp_url host visible trimmed colon slash query =
    let whole = trim-tcp_url host trimmed (visible-ne-empty host visible) in
    rw (
      is_blank-tcp_url host whole,
      whole,
      before_absent "?" host query,
      before_absent "/" host slash,
      visible,
      colon,
    )
