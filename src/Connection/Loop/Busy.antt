-- ===== src/Connection/Loop/Busy.antt =====
-- How many streams of the table of src/connection.c have output.
use ext_ngtcp.Prelude.{
  ℕ, ◌+◌, ◌≤◌, ◌<◌, ◌≡◌, refl, subst, Bool, true, false, none, some, [], ◌∷◌, ◌++◌, arith, ◌==◌,
  if◌then◌else◌, if_rule, Bool-cases, inl, inr,
}
use ext_ngtcp.Buffer.{contents}
use ext_ngtcp.Connection.State.{StreamEntry, Streams, find, modify, stream_entry_alloc}
use ext_ngtcp.Connection.Transmit.{has_output, first_output, discarded}
use ext_ngtcp.Connection.History.Table.{Sound}

abbrev pub load : StreamEntry → ℕ
load e = if has_output e then 1 else 0

-- The entries with output, all of them, and those under other keys than k.
unfoldable pub busy : Streams → ℕ
busy [] = 0
busy ((j, e) ∷ streams) = load e + busy streams

unfoldable pub busy_but : ℕ → Streams → ℕ
busy_but k [] = 0
busy_but k ((j, e) ∷ streams) = (if j == k then 0 else load e) + busy_but k streams

-- A change that gives no entry output.
abbrev pub Mute : (StreamEntry → StreamEntry) → Type 0
Mute f = (e : StreamEntry) → load (f e) ≤ load e

pub modify-busy_but :
    (k j : ℕ) (f : StreamEntry → StreamEntry) (streams : Streams)
    → Mute f
    → busy_but k (modify j f streams) ≤ busy_but k streams
unfolding busy_but modify
modify-busy_but k j f [] mute = omega arith
modify-busy_but k j f ((i, e) ∷ streams) mute =
    if_rule (λ s. busy_but k s ≤ busy_but k ((i, e) ∷ streams)) (i == j) _ _
      (λ _.
        if_cases (i == k) (load (f e)) (load e) (busy_but k streams) (busy_but k streams) (mute e)
          (omega arith))
      (λ _.
        if_cases (i == k) (load e) (load e) (busy_but k (modify j f streams)) (busy_but k streams)
          (omega arith) (modify-busy_but k j f streams mute))
  where
    if_cases :
        (b : Bool) (x y m n : ℕ)
        → x ≤ y
        → m ≤ n
        → (if b then 0 else x) + m ≤ (if b then 0 else y) + n
    if_cases true x y m n h l = omega arith
    if_cases false x y m n h l = omega arith

pub alloc-busy_but :
    (k j : ℕ) (streams : Streams)
    → busy_but k (streams ++ (j, stream_entry_alloc j) ∷ []) ≤ busy_but k streams
unfolding busy_but stream_entry_alloc has_output contents
alloc-busy_but k j [] = ground arith
alloc-busy_but k j ((i, e) ∷ streams) = omega (arith, alloc-busy_but k j streams)

-- Without a repeated key, a stream whose data is discarded has no output any more.
free-busy : (k : ℕ) (streams : Streams) → find k streams ≡ none → busy streams ≡ busy_but k streams
unfolding busy busy_but find
free-busy k [] h = refl
free-busy k ((j, e) ∷ streams) h = ground (arith, free-busy k streams)

discarded-silent : (e : StreamEntry) → load (discarded e) ≡ 0
unfolding has_output discarded contents
discarded-silent e = ground arith

pub discarded-busy :
    (k : ℕ) (streams : Streams)
    → Sound streams
    → busy (modify k discarded streams) ≤ busy_but k streams
unfolding busy busy_but modify Sound find
discarded-busy k [] h = omega arith
discarded-busy k ((j, e) ∷ streams) h = elim (Bool-cases (j == k)) [
  | inl same ↦
      let eq : j ≡ k = ground arith in
      let free : find k streams ≡ none = subst (λ i. find i streams ≡ none) eq h.1 in
      rw same (omega (arith, discarded-silent e, free-busy k streams free))
  | inr apart ↦ rw apart (omega (arith, discarded-busy k streams h.2))
]

but-busy : (k : ℕ) (streams : Streams) → busy_but k streams ≤ busy streams
unfolding busy busy_but
but-busy k [] = omega arith
but-busy k ((j, e) ∷ streams) =
    if_rule (λ n. n + busy_but k streams ≤ load e + busy streams) (j == k) _ _
      (λ _. omega (arith, but-busy k streams)) (λ _. omega (arith, but-busy k streams))

first_key :
    (j k : ℕ) (d e : StreamEntry) (streams : Streams)
    → has_output d ≡ true
    → first_output ((j, d) ∷ streams) ≡ some (k, e)
    → j ≡ k
unfolding first_output
first_key j k d e streams ready h = ground arith

first_rest :
    (j k : ℕ) (d e : StreamEntry) (streams : Streams)
    → has_output d ≡ false
    → first_output ((j, d) ∷ streams) ≡ some (k, e)
    → first_output streams ≡ some (k, e)
unfolding first_output
first_rest j k d e streams idle h = ground arith

pub first_output-busy :
    (k : ℕ) (e : StreamEntry) (streams : Streams)
    → first_output streams ≡ some (k, e)
    → busy_but k streams < busy streams
unfolding busy busy_but first_output
first_output-busy k e [] h = cc
first_output-busy k e ((j, d) ∷ streams) h = elim (Bool-cases (has_output d)) [
  | inl ready ↦
      let eq : j ≡ k = first_key j k d e streams ready h in
      let same : (j == k) ≡ true = ground arith in
      rw (same, ready) (omega (arith, but-busy k streams))
  | inr idle ↦
      let rest : first_output streams ≡ some (k, e) = first_rest j k d e streams idle h in
      rw idle (
        if_rule (λ n. n + busy_but k streams < 0 + busy streams) (j == k) _ _
          (λ _. omega (arith, first_output-busy k e streams rest))
          (λ _. omega (arith, first_output-busy k e streams rest)))
]
