-- ===== src/Endpoint/Keys.antt =====
-- The keys of src/server_endpoint.c for different peers.
use ext_ngtcp.Prelude.{
  ℕ, ◌≤◌, ◌≡◌, refl, sym, ap, ◌∙◌, subst, Bool, true, false, none, some, [], ◌∷◌, ◌++◌, Bytes,
  arith, length, ◌==◌, if◌then◌else◌, c_string, show_ℕ, show_long,
}
use ext_ngtcp.Address.{Address, object}
use ext_ngtcp.Address.Parse.{is_digit, read_digits}
use ext_ngtcp.Address.RoundTrip.{Without, show_value, show-Without, c_string-Without}
use ext_ngtcp.Endpoint.State.{key_of, connection_key}

-- The bar between the host and the port.
abbrev bar : ℕ
bar = b'|'

Without-bar : (xs ys : Bytes) → Without bar (xs ++ bar ∷ ys) → ⊥
Without-bar [] ys h = cc
Without-bar (x ∷ xs) ys h = Without-bar xs ys h.1

head_eq : (x y : ℕ) (xs ys : Bytes) → x ∷ xs ≡ y ∷ ys → x ≡ y
head_eq x y xs ys e = cc

tail_eq : (x y : ℕ) (xs ys : Bytes) → x ∷ xs ≡ y ∷ ys → xs ≡ ys
tail_eq x y xs ys e = cc

-- The last bar splits a text in one way only.
last_bar :
    (xs ys ds es : Bytes)
    → Without bar ds
    → Without bar es
    → xs ++ bar ∷ ds ≡ ys ++ bar ∷ es
    → (xs ≡ ys) × (ds ≡ es)
last_bar [] [] ds es h k e = (refl, tail_eq bar bar ds es e)
last_bar [] (y ∷ ys) ds es h k e =
    absurd (Without-bar ys es (subst (Without bar) (tail_eq bar y ds _ e) h))
last_bar (x ∷ xs) [] ds es h k e =
    absurd (Without-bar xs ds (subst (Without bar) (sym (tail_eq x bar _ es e)) k))
last_bar (x ∷ xs) (y ∷ ys) ds es h k e =
    let rest = last_bar xs ys ds es h k (tail_eq x y _ _ e) in
    let first = head_eq x y _ _ e in (cc, rest.1)

show_ℕ-injective : (m n : ℕ) → show_ℕ m ≡ show_ℕ n → m ≡ n
show_ℕ-injective m n e =
    ap (λ (r : ℕ × Bytes). r.0) (sym (show_value m) ∙ ap (read_digits 0) e ∙ show_value n)

bar_free : (port : ℕ) → Without bar (show_ℕ port)
unfolding is_digit
bar_free port = show-Without bar port refl

show_long_port : (port : ℕ) → port ≤ 65535 → show_long port ≡ show_ℕ port
unfolding show_long
show_long_port port h = ground arith

given : (b : Bool) (v key : Bytes) → (if b then none else some v) ≡ some key → key ≡ v
given true v key e = cc
given false v key e = cc

key_parts :
    (a : Address) (key : Bytes)
    → Without 0 a.host
    → a.port ≤ 65535
    → key_of a ≡ some key
    → key ≡ a.host ++ bar ∷ show_ℕ a.port
unfolding key_of
key_parts a key text small e =
    given (length a.host == 0) (c_string a.host ++ bar ∷ show_long a.port) key e
    ∙ ap (λ host. host ++ bar ∷ show_long a.port) (c_string-Without a.host text)
    ∙ ap (λ port. a.host ++ bar ∷ port) (show_long_port a.port small)

-- Two peers with one key have the same host and the same port, where hosts have no NUL and ports are
-- at most 65535.
pub connection_key-injective :
    (a b : Address) (key : Bytes)
    → Without 0 a.host
    → Without 0 b.host
    → a.port ≤ 65535
    → b.port ≤ 65535
    → connection_key (object a) ≡ some key
    → connection_key (object b) ≡ some key
    → (a.host ≡ b.host) × (a.port ≡ b.port)
unfolding connection_key
connection_key-injective a b key text_a text_b small_a small_b key_a key_b =
    let same = sym (key_parts a key text_a small_a key_a) ∙ key_parts b key text_b small_b key_b in
    let parts =
      last_bar a.host b.host (show_ℕ a.port) (show_ℕ b.port) (bar_free a.port) (bar_free b.port)
        same in
    (parts.0, show_ℕ-injective a.port b.port parts.1)
