-- ===== src/Tenant/Pigeonhole.antt =====
-- A list without repetitions whose members are those of another list is no longer than it.
use schemaforge.Prelude.{
  suc, ◌≤◌, String, true, false, List, [], ◌∷◌, ◌==◌, eq_iff, ◌≡◌, arith, length, All,
  if◌then◌else◌,
}
use schemaforge.Tenant.Build.{member}

abbrev pub NoRepeats : List String → Type 0
NoRepeats [] = Unit
NoRepeats (x ∷ xs) = (member xs x ≡ false) × NoRepeats xs

abbrev pub Within : List String → List String → Type 0
Within xs names = All (λ x. member names x ≡ true) xs

abbrev without_first : String → List String → List String
without_first x [] = []
without_first x (y ∷ ys) = if y == x then ys else y ∷ without_first x ys

length-without_first :
    (x : String) (ys : List String)
    → member ys x ≡ true
    → length ys ≡ suc (length (without_first x ys))
length-without_first x [] h = cc
length-without_first x (y ∷ ys) h = ground (arith, length-without_first x ys)

member-without_first :
    (x v : String) (ys : List String)
    → (v == x) ≡ false
    → member ys v ≡ true
    → member (without_first x ys) v ≡ true
member-without_first x v [] n h = h
member-without_first x v (y ∷ ys) n h =
    ground (arith, member-without_first x v ys, eq_iff y x, eq_iff y v, eq_iff v x)

Within-without_first :
    (x : String) (xs ys : List String)
    → member xs x ≡ false
    → Within xs ys
    → Within xs (without_first x ys)
Within-without_first x [] ys n h = tt
Within-without_first x (v ∷ xs) ys n (h, hs) =
    (member-without_first x v ys (ground arith) h, Within-without_first x xs ys (ground arith) hs)

pub pigeonhole : (xs ys : List String) → NoRepeats xs → Within xs ys → length xs ≤ length ys
pigeonhole [] ys n h = ground arith
pigeonhole (x ∷ xs) ys (n, ns) (h, hs) =
    let shorter = pigeonhole xs (without_first x ys) ns (Within-without_first x xs ys n hs) in
    let one = length-without_first x ys h in ground arith
