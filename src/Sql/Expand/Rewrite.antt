-- ===== src/Sql/Expand/Rewrite.antt =====
-- internal/provider/sql/expand.go: `rewrite` changes the placeholders and nothing else.
use tales.Base.{
  ℕ, zero, suc, ◌+◌, ◌-◌, ◌≤◌, ◌<◌, List, [], ◌∷◌, ◌++◌, length, take, drop, Bytes, All, ◌≡◌, refl,
  ap, ap₂, ◌∙◌, arith, sym, take-append-drop,
}
use tales.Sql.Scan.{Placeholder}
use tales.Sql.Scan.Sound.{Located}
use tales.Sql.Skip.{slice, byte_at}
use tales.Sql.Expand.{rewrite, rewrite_loop}

pub rewrite_loop_ext :
    (sql : Bytes) (cursor : ℕ) (found : List Placeholder) (f g : Placeholder → Bytes)
    → All (λ p. f p ≡ g p) found
    → rewrite_loop sql cursor found f ≡ rewrite_loop sql cursor found g
unfolding rewrite_loop
rewrite_loop_ext sql cursor [] f g h = refl
rewrite_loop_ext sql cursor (p ∷ found) f g h =
    ap₂ (λ (a b : Bytes). slice sql cursor p.start ++ (a ++ b)) h.0
      (rewrite_loop_ext sql p.end found f g h.1)

pub rewrite_ext :
    (sql : Bytes) (found : List Placeholder) (f g : Placeholder → Bytes)
    → All (λ p. f p ≡ g p) found
    → rewrite sql found f ≡ rewrite sql found g
unfolding rewrite
rewrite_ext sql found f g h = rewrite_loop_ext sql 0 found f g h

drop-nil : (n : ℕ) → drop {A = ℕ} n [] ≡ []
drop-nil zero = refl
drop-nil (suc n) = refl

drop-drop : (m n : ℕ) (s : Bytes) → drop n (drop m s) ≡ drop (m + n) s
drop-drop zero n s = let q : n ≡ zero + n = omega arith in ap (λ t. drop t s) q
drop-drop (suc m) n [] = drop-nil n ∙ sym (drop-nil (suc m + n))
drop-drop (suc m) n (c ∷ s) =
    let q : suc (m + n) ≡ suc m + n = omega arith in drop-drop m n s ∙ ap (λ t. drop t (c ∷ s)) q

pub slice-append-drop : (sql : Bytes) (a b : ℕ) → a ≤ b → slice sql a b ++ drop b sql ≡ drop a sql
slice-append-drop sql a b h =
    let q : b ≡ a + (b - a) = omega arith in
    ap (λ t. slice sql a b ++ t) (ap (λ t. drop t sql) q ∙ sym (drop-drop a (b - a) sql))
    ∙ take-append-drop (b - a) (drop a sql)

-- Placeholders that are written back as they stand give the statement back.
pub rewrite_loop_same :
    (sql : Bytes) (cursor : ℕ) (found : List Placeholder)
    → Located cursor (length sql) found
    → rewrite_loop sql cursor found (λ p. slice sql p.start p.end) ≡ drop cursor sql
unfolding rewrite_loop
rewrite_loop_same sql cursor [] h = refl
rewrite_loop_same sql cursor (p ∷ found) (starts, moves, rest) =
    ap (λ t. slice sql cursor p.start ++ (slice sql p.start p.end ++ t))
      (rewrite_loop_same sql p.end found rest)
    ∙ (ap (λ t. slice sql cursor p.start ++ t) (slice-append-drop sql p.start p.end (omega arith))
        ∙ slice-append-drop sql cursor p.start starts)

head_of_drop : (sql : Bytes) (i : ℕ) → i < length sql → take 1 (drop i sql) ≡ byte_at sql i ∷ []
head_of_drop [] i h = elim h [ ]
head_of_drop (c ∷ s) zero h = refl
head_of_drop (c ∷ s) (suc i) h = head_of_drop s i (omega arith)

-- A slice of one byte.
pub slice-one : (sql : Bytes) (i : ℕ) → i < length sql → slice sql i (i + 1) ≡ byte_at sql i ∷ []
slice-one sql i h =
    let q : i + 1 - i ≡ 1 = omega arith in ap (λ t. take t (drop i sql)) q ∙ head_of_drop sql i h

pub rewrite_same :
    (sql : Bytes) (found : List Placeholder)
    → Located 0 (length sql) found
    → rewrite sql found (λ p. slice sql p.start p.end) ≡ sql
unfolding rewrite
rewrite_same sql found h = rewrite_loop_same sql 0 found h
