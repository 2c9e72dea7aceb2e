-- ===== src/Upload/Written.antt =====
-- The bytes that lab05/lab05_src/fileup_serv_dir/fileup_serv.c writes to one file.
use io_t_lab.Common.{
  ℕ, ◌≡◌, refl, ap₂, List, [], ◌∷◌, ◌++◌, Bool, true, false, Bool-cases, inl, inr, arith, ◌==◌,
  ◌&&◌, if◌then◌else◌,
}
use mathlib.Core.List.{append_assoc}
use io_t_lab.Upload.{Stored}

-- `strcmp` of two names.
abbrev pub same_name : List ℕ → List ℕ → Bool
same_name [] [] = true
same_name [] (y ∷ ys) = false
same_name (x ∷ xs) [] = false
same_name (x ∷ xs) (y ∷ ys) = x == y && same_name xs ys

pub same_name-eq : (xs ys : List ℕ) → same_name xs ys ≡ true → xs ≡ ys
same_name-eq [] [] h = refl
same_name-eq [] (y ∷ ys) h = ground arith
same_name-eq (x ∷ xs) [] h = ground arith
same_name-eq (x ∷ xs) (y ∷ ys) h = ap₂ ◌∷◌ (ground arith) (same_name-eq xs ys (ground arith))

pub same_name_refl : (xs : List ℕ) → same_name xs xs ≡ true
same_name_refl [] = refl
same_name_refl (x ∷ xs) = ground (arith, same_name_refl xs)

-- The bytes written to a file.
abbrev pub written : List ℕ → List Stored → List ℕ
written file [] = []
written file (w ∷ ws) =
    let rest = written file ws in if same_name w.file file then w.bytes ++ rest else rest

pub written-append :
    (file : List ℕ) (ws vs : List Stored)
    → written file (ws ++ vs) ≡ written file ws ++ written file vs
written-append file [] vs = refl
written-append file (w ∷ ws) vs = elim (Bool-cases (same_name w.file file)) [
  | inl hit ↦
      rw (hit, written-append file ws vs, append_assoc w.bytes (written file ws) (written file vs))
        refl
  | inr miss ↦ rw (miss, written-append file ws vs) refl
]
