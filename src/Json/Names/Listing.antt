-- ===== src/Json/Names/Listing.antt =====
-- The order in which the sealed segments of a directory are replayed.
use mathlib.Core.List.{Perm}
use mathlib.Core.List.Perm
use jorb.Base.{
  ℕ, ◌≡◌, ◌≤◌, ◌<◌, ◌^◌, refl, ap, ◌∙◌, subst, false, List, [], ◌∷◌, ◌++◌, map, All, All-map,
  Bool-cases, inl, inr, leb, arith,
}
use jorb.Json.Store.{insert_by_seq, sort_by_seq}
use jorb.Json.Names.{
  sealed_mark, inc, sealed_incremental_name, contains, add_number, numbers_of, list_sealed_segments,
}
use jorb.Json.Names.Parse.{parse_sealed_seq-sealed_incremental_name}

abbrev pub Ascending : List ℕ → Type 0
Ascending [] = Unit
Ascending (n ∷ ns) = All (λ m. n ≤ m) ns × Ascending ns

insert_by_seq-All :
    (P : ℕ → Type 0) (n : ℕ) (ns : List ℕ) → P n → All P ns → All P (insert_by_seq n ns)
unfolding insert_by_seq
insert_by_seq-All P n [] p a = (p, tt)
insert_by_seq-All P n (m ∷ ms) p a = elim (Bool-cases (leb n m)) [
  | inl le ↦ rw le (p, a)
  | inr gt ↦ rw gt (a.0, insert_by_seq-All P n ms p a.1)
]

insert_by_seq-Ascending : (n : ℕ) (ns : List ℕ) → Ascending ns → Ascending (insert_by_seq n ns)
unfolding insert_by_seq
insert_by_seq-Ascending n [] a = (tt, tt)
insert_by_seq-Ascending n (m ∷ ms) a = elim (Bool-cases (leb n m)) [
  | inl le ↦
      let first : n ≤ m = ground (arith, le) in
      rw le ((first, All-map _ _ ms (λ k h. omega (arith, first, h)) a.0), a)
  | inr gt ↦
      let first : m ≤ n = ground (arith, gt) in
      rw gt (insert_by_seq-All (λ k. m ≤ k) n ms first a.0, insert_by_seq-Ascending n ms a.1)
]

sort_by_seq-Ascending : (ns : List ℕ) → Ascending (sort_by_seq ns)
unfolding sort_by_seq
sort_by_seq-Ascending [] = tt
sort_by_seq-Ascending (n ∷ ns) =
    insert_by_seq-Ascending n (sort_by_seq ns) (sort_by_seq-Ascending ns)

insert_by_seq-Perm : (n : ℕ) (ns : List ℕ) → Perm (insert_by_seq n ns) (n ∷ ns)
unfolding insert_by_seq
insert_by_seq-Perm n [] = Perm.rfl
insert_by_seq-Perm n (m ∷ ms) = elim (Bool-cases (leb n m)) [
  | inl le ↦ rw le Perm.rfl
  | inr gt ↦ rw gt (Perm.trans (Perm.cons m (insert_by_seq-Perm n ms)) (Perm.swap n m ms))
]

sort_by_seq-Perm : (ns : List ℕ) → Perm (sort_by_seq ns) ns
unfolding sort_by_seq
sort_by_seq-Perm [] = Perm.rfl
sort_by_seq-Perm (n ∷ ns) =
    Perm.trans (insert_by_seq-Perm n (sort_by_seq ns)) (Perm.cons n (sort_by_seq-Perm ns))

numbers_of-names :
    (stem : List ℕ) (seqs : List ℕ)
    → contains inc (stem ++ sealed_mark) ≡ false
    → All (λ seq. seq < 2 ^ 64) seqs
    → numbers_of (map (λ seq. sealed_incremental_name stem seq) seqs) ≡ seqs
unfolding numbers_of
numbers_of-names stem [] free a = refl
numbers_of-names stem (seq ∷ seqs) free a =
    ap (λ o. add_number o (numbers_of (map (λ n. sealed_incremental_name stem n) seqs)))
      (parse_sealed_seq-sealed_incremental_name stem seq free a.0)
    ∙ ap (λ l. seq ∷ l) (numbers_of-names stem seqs free a.1)

-- For a stem in which no mark of a segment's name begins, the listing of the sealed segments of any
-- numbers of 64 bits is a permutation of those numbers, none lost and none added, in ascending order.
pub list_sealed_segments-Ascending :
    (stem : List ℕ) (seqs : List ℕ)
    → contains inc (stem ++ sealed_mark) ≡ false
    → All (λ seq. seq < 2 ^ 64) seqs
    → Perm (list_sealed_segments (map (λ seq. sealed_incremental_name stem seq) seqs)) seqs
      × Ascending (list_sealed_segments (map (λ seq. sealed_incremental_name stem seq) seqs))
unfolding list_sealed_segments
list_sealed_segments-Ascending stem seqs free a = (
  subst (Perm (sort_by_seq (numbers_of (map (λ n. sealed_incremental_name stem n) seqs))))
      (numbers_of-names stem seqs free a)
      (sort_by_seq-Perm (numbers_of (map (λ n. sealed_incremental_name stem n) seqs))),
  sort_by_seq-Ascending (numbers_of (map (λ n. sealed_incremental_name stem n) seqs)),
)
