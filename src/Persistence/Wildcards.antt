-- ===== src/Persistence/Wildcards.antt =====
-- The wildcards of the adapter in memory: what its search for the parts from left to right finds.
use enterprise_ai_sales_orch.Prelude.{
  append_assoc, length-append, zero, suc, ◌≤◌, ℕ, ◌≡◌, ◌++◌, ◌↔◌, inl, inr, true, Option, none,
  some, List, [], ◌∷◌, refl, sym, ap, arith, length, drop, Bool-cases,
}
use enterprise_ai_sales_orch.Prelude.Text.{starts_with-append, Text, truthy, starts_with, lower}
use enterprise_ai_sales_orch.Persistence.Value.{text}
use enterprise_ai_sales_orch.Persistence.Memory.{behind, match_parts, wildcard_match, split}

-- The parts stand in the text in their order, without overlapping.
abbrev pub InOrder : List Text → Text → Type 0
InOrder [] s = Unit
InOrder (part ∷ parts) s =
    (skipped : Text) × (rest : Text) × (s ≡ skipped ++ (part ++ rest)) × InOrder parts rest

drop-prefix : (n : ℕ) (s rest : Text) → n ≤ length s → drop n (s ++ rest) ≡ drop n s ++ rest
drop-prefix zero s rest h = refl
drop-prefix (suc n) [] rest h = absurd (omega arith)
drop-prefix (suc n) (c ∷ s) rest h = drop-prefix n s rest (omega arith)

drop-append : (p rest : Text) → drop (length p) (p ++ rest) ≡ rest
drop-append [] rest = refl
drop-append (a ∷ p) rest = drop-append p rest

starts_with_inv : (p s : Text) → starts_with p s ≡ true → s ≡ p ++ drop (length p) s
starts_with_inv [] s h = refl
starts_with_inv (a ∷ p) [] h = cc
starts_with_inv (a ∷ p) (b ∷ s) h =
    let same : a ≡ b = ground arith in
    let more : starts_with p s ≡ true = ground arith in
    rw same (ap (λ t. b ∷ t) (starts_with_inv p s more))

behind_inv :
    (p s rest : Text) → behind p s ≡ some rest → (skipped : Text) × (s ≡ skipped ++ (p ++ rest))
unfolding behind
behind_inv [] [] rest h = ([], cc)
behind_inv (a ∷ p) [] rest h = cc
behind_inv p (c ∷ s) rest h = elim (Bool-cases (starts_with p (c ∷ s))) [
  | inl here ↦
      let is : drop (length p) (c ∷ s) ≡ rest = ground arith in
      ([], rw (sym is) (starts_with_inv p (c ∷ s) here))
  | inr later ↦
      let found = behind_inv p s rest (ground arith) in (c ∷ found.0, ap (λ t. c ∷ t) found.1)
]

drop-suffix :
    (p skipped rest : Text)
    → (more : Text) × (drop (length p) (skipped ++ (p ++ rest)) ≡ more ++ rest)
drop-suffix p skipped rest =
    let both = append_assoc skipped p rest in
    let fits : length p ≤ length (skipped ++ p) = omega (arith, length-append skipped p) in
    (
      drop (length p) (skipped ++ p),
      rw (sym both) (drop-prefix (length p) (skipped ++ p) rest fits),
    )

-- The first place where a part stands leaves the longest rest.
LeavesLonger : Text → Text → Text → Type 0
LeavesLonger p s rest =
    (longer : Text) × (more : Text) × (behind p s ≡ some longer) × (longer ≡ more ++ rest)

behind-here :
    (p : Text) (c : ℕ) (s rest more : Text)
    → starts_with p (c ∷ s) ≡ true
    → drop (length p) (c ∷ s) ≡ more ++ rest
    → LeavesLonger p (c ∷ s) rest
unfolding LeavesLonger behind
behind-here p c s rest more h is = (more ++ rest, more, rw (h, is) refl, refl)

behind-LeavesLonger : (p skipped rest : Text) → LeavesLonger p (skipped ++ (p ++ rest)) rest
unfolding LeavesLonger behind
behind-LeavesLonger [] [] [] = ([], [], refl, refl)
behind-LeavesLonger [] [] (c ∷ rest) = (c ∷ rest, [], refl, refl)
behind-LeavesLonger (a ∷ p) [] rest =
    behind-here (a ∷ p) a (p ++ rest) rest [] (starts_with-append (a ∷ p) rest) (drop-append p rest)
behind-LeavesLonger p (c ∷ skipped) rest =
    let s = skipped ++ (p ++ rest) in
    elim (Bool-cases (starts_with p (c ∷ s))) [
      | inl here ↦
          let suffix = drop-suffix p (c ∷ skipped) rest in
          behind-here p c s rest suffix.0 here suffix.1
      | inr later ↦
          let (longer, more, found, is) = behind-LeavesLonger p skipped rest in
          (longer, more, rw later found, is)
    ]

InOrder-longer : (parts : List Text) (more s : Text) → InOrder parts s → InOrder parts (more ++ s)
InOrder-longer [] more s h = tt
InOrder-longer (p ∷ parts) more s (skipped, rest, is, h) =
    (more ++ skipped, rest, rw is (sym (append_assoc more skipped (p ++ rest))), h)

InOrder-empty : (parts : List Text) (s : Text) → InOrder ([] ∷ parts) s → InOrder parts s
InOrder-empty parts s (skipped, rest, is, h) = rw is (InOrder-longer parts skipped rest h)

Found : List Text → Text → Type 0
Found parts s = (match_parts parts s ≡ true) ↔ InOrder parts s

match_part :
    (p : Text) (parts : List Text) (s : Text)
    → truthy p ≡ true
    → ((rest : Text) → Found parts rest)
    → Found (p ∷ parts) s
unfolding Found match_parts LeavesLonger
match_part p parts s h later = (forth (behind p s) refl, back)
  where
    forth :
        (o : Option Text)
        → behind p s ≡ o
        → match_parts (p ∷ parts) s ≡ true
        → InOrder (p ∷ parts) s
    forth none e m = ground (arith, e, h, m)
    forth (some rest) e m =
        let place = behind_inv p s rest e in
        let more : match_parts parts rest ≡ true = ground (arith, e, h, m) in
        (place.0, rest, place.1, (later rest).0 more)

    back : InOrder (p ∷ parts) s → match_parts (p ∷ parts) s ≡ true
    back (skipped, rest, is, m) =
        let (longer, more, found, ends) = behind-LeavesLonger p skipped rest in
        let found' : behind p s ≡ some longer = rw is found in
        let holds : match_parts parts longer ≡ true =
          (later longer).1 (rw ends (InOrder-longer parts more rest m)) in
        ground (arith, found', holds, h)

match_parts-InOrder : (parts : List Text) (s : Text) → Found parts s
unfolding Found match_parts
match_parts-InOrder [] s = (λ h. tt, λ h. refl)
match_parts-InOrder ([] ∷ parts) s =
    let (forth, back) = match_parts-InOrder parts s in
    (λ h. ([], s, refl, forth h), λ h. back (InOrder-empty parts s h))
match_parts-InOrder ((c ∷ p) ∷ parts) s =
    match_part (c ∷ p) parts s refl (λ rest. match_parts-InOrder parts rest)

-- A text matches a pattern exactly when the parts of the pattern between its percent signs stand in the
-- text in their order, without overlapping, in whatever case of their letters: taking each part where
-- it first occurs misses no match.
pub wildcard_match-InOrder :
    (s pattern : Text)
    → (wildcard_match (text s) pattern ≡ true) ↔ InOrder (split b'%' (lower pattern)) (lower s)
unfolding wildcard_match Found
wildcard_match-InOrder s pattern = match_parts-InOrder (split b'%' (lower pattern)) (lower s)
