-- ===== src/Diff/Apply/Panics.antt =====
-- The removals with which `apply_diff` panics.
use Prim.Native.String.{len, ◌++◌}
use Prim.Native.String.append
use trilithon.Base.{
  ℕ, suc, ◌+◌, ◌-◌, String, Char, code, Bool, true, false, ◌&&◌, [], ◌∷◌, Option, none, some,
  if◌then◌else◌, str_eq, eq_iff, leb, ltb, ◌==◌, Result, ok, ◌≡◌, refl, inl, inr, Bool-cases, arith,
}
use trilithon.Base.BTreeMap.{BTreeSet, contains}
use trilithon.Model.Json.{Value}
use trilithon.Model.State.{DesiredState}
use trilithon.Diff.Compare.{Diff, Engine, state_to_value}
use trilithon.Diff.Apply.{
  slice_to, insert_slice, add_prefixes, add_candidates, fully_removed_subtrees, removed_leaves,
  apply_to_value, apply_diff,
}

abbrev size : Char → ℕ
size c = len (String.◌∷◌ c String.[])

-- Every character is one byte.
unfoldable pub all_single : String → Bool
all_single String.[] = true
all_single (String.◌∷◌ c s) = size c == 1 && all_single s

unfoldable pub count : String → ℕ
count String.[] = 0
count (String.◌∷◌ c s) = suc (count s)

-- The slice that ends after the first byte of the character.
slice_to-none :
    (a s : String) (c : Char)
    → all_single a ≡ true
    → leb (size c) 1 ≡ false
    → slice_to (suc (count a)) (a ++ String.◌∷◌ c s) ≡ none
unfolding slice_to all_single count
slice_to-none String.[] s c single wide = rw (append.nil, wide) refl
slice_to-none (String.◌∷◌ d a) s c single wide =
    let one : size d ≡ 1 = ground arith in
    let rest = slice_to-none a s c (ground arith) wide in
    let left : suc (count (String.◌∷◌ d a)) - 1 ≡ suc (count a) = omega arith in
    rw append.cons (rw (one, left, rest) (ground arith))

if-same : (b : Bool) (x : Option BTreeSet) → (if b then x else x) ≡ x
if-same true x = refl
if-same false x = refl

add_prefixes-none : (path : String) (n : ℕ) (s : String) → add_prefixes path n s none ≡ none
unfolding add_prefixes
add_prefixes-none path n String.[] = refl
add_prefixes-none path n (String.◌∷◌ c s) =
    rw (if-same (code c == b'/' && ltb 1 (suc n)) none) (add_prefixes-none path (suc n) s)

add_candidates-none : (paths : BTreeSet) → add_candidates paths none ≡ none
unfolding add_candidates
add_candidates-none [] = refl
add_candidates-none (path ∷ paths) = rw (add_prefixes-none path 0 path) (add_candidates-none paths)

insert_slice-none : (set : Option BTreeSet) → insert_slice set none ≡ none
insert_slice-none none = refl
insert_slice-none (some set) = refl

walk :
    (path a s : String) (n : ℕ) (c : Char) (set : Option BTreeSet)
    → slice_to (n + suc (count a)) path ≡ none
    → add_prefixes path n (a ++ String.◌∷◌ c (String.◌∷◌ "/" s)) set ≡ none
unfolding add_prefixes count
walk path String.[] s n c set cut =
    let before : Option BTreeSet =
      if code c == b'/' && ltb 1 (suc n) then insert_slice set (slice_to n path) else set in
    let deep : ltb 1 (suc (suc n)) ≡ true = ground arith in
    let here : n + suc (count String.[]) ≡ suc n = omega arith in
    let panics : slice_to (suc n) path ≡ none = rw here at cut in
    rw append.nil (rw (deep, panics, insert_slice-none) (add_prefixes-none path (suc (suc n)) s))
walk path (String.◌∷◌ d a) s n c set cut =
    let n_suc : n + suc (count (String.◌∷◌ d a)) ≡ suc n + suc (count a) = omega arith in
    let next =
      walk path a s (suc n) c
        (if code d == b'/' && ltb 1 (suc n) then insert_slice set (slice_to n path) else set)
        (rw n_suc at cut) in
    rw append.cons next

add_candidates-panics :
    (paths : BTreeSet) (set : Option BTreeSet) (path : String)
    → contains paths path ≡ true
    → ((set : Option BTreeSet) → add_prefixes path 0 path set ≡ none)
    → add_candidates paths set ≡ none
unfolding add_candidates contains
add_candidates-panics [] set path h cut = cc
add_candidates-panics (p ∷ paths) set path h cut = elim (Bool-cases (str_eq p path)) [
  | inl e ↦ let same = (eq_iff p path).0 e in rw (same, cut set) (add_candidates-none paths)
  | inr e ↦ add_candidates-panics paths _ path (rw e at h) cut
]

module _ (engine : Engine) (from_value : Value → Result String DesiredState) where
  -- A diff that removes a leaf below a member whose name ends in a character of several bytes, with
  -- single bytes before it in the path, makes `apply_diff` panic, whatever else the diff has: the
  -- position of the slash is counted in characters and used as one in bytes.
  pub apply_diff-panics :
      (state : DesiredState) (root : Value) (diff : Diff) (a s : String) (c : Char)
      → state_to_value engine state ≡ ok root
      → contains (removed_leaves diff.entries) (a ++ String.◌∷◌ c (String.◌∷◌ "/" s)) ≡ true
      → all_single a ≡ true
      → leb (size c) 1 ≡ false
      → apply_diff engine from_value state diff ≡ none
  unfolding apply_diff apply_to_value fully_removed_subtrees
  apply_diff-panics state root diff a s c h removes single wide =
      let path = a ++ String.◌∷◌ c (String.◌∷◌ "/" s) in
      let cut = slice_to-none a (String.◌∷◌ "/" s) c single wide in
      let here : 0 + suc (count a) ≡ suc (count a) = omega arith in
      let panics =
        add_candidates-panics (removed_leaves diff.entries) (some []) path removes
          (λ set. walk path a s 0 c set (rw here cut)) in
      rw (h, panics) refl
