-- ===== src/Collect/Process/Table.antt =====
-- crates/sg-collect/src/process.rs: which processes are kept, and in what order.
use server_glass.Base.{
  ℕ, suc, zero, ◌≤◌, ◌≡◌, refl, ap, ◌∙◌, Bool, ◌||◌, List, [], ◌∷◌, All, length, take, drop, filter,
  any, ltb, leb, arith, min, Bool-cases, inl, inr,
}
use server_glass.Collect.Process.{
  ProcessStat, process_table, sort_by_rss, insert_by_rss, max_processes,
}

-- No process has more memory than the one before it.
abbrev pub IsFalling : List ProcessStat → Type 0
IsFalling [] = Unit
IsFalling (p ∷ []) = Unit
IsFalling (p ∷ q ∷ r) = (q.rss_pages ≤ p.rss_pages) × IsFalling (q ∷ r)

-- The processes with resident memory.
abbrev pub resident : List ProcessStat → List ProcessStat
resident ps = filter (λ p. ltb 0 p.rss_pages) ps

insert_by_rss-IsFalling :
    (p : ProcessStat) (ps : List ProcessStat) → IsFalling ps → IsFalling (insert_by_rss p ps)
unfolding insert_by_rss
insert_by_rss-IsFalling p [] h = tt
insert_by_rss-IsFalling p (q ∷ []) h = elim (Bool-cases (leb q.rss_pages p.rss_pages)) [
  | inl e ↦ rw e (ground arith, tt)
  | inr n ↦ rw n (ground arith, tt)
]
insert_by_rss-IsFalling p (q ∷ r ∷ ps) (qr, h) = elim (Bool-cases (leb q.rss_pages p.rss_pages)) [
  | inl e ↦ rw e (ground arith, (qr, h))
  | inr n ↦ elim (Bool-cases (leb r.rss_pages p.rss_pages)) [
    | inl e ↦ rw (n, e) (ground arith, rw e at (insert_by_rss-IsFalling p (r ∷ ps) h))
    | inr m ↦ rw (n, m) (qr, rw m at (insert_by_rss-IsFalling p (r ∷ ps) h))
  ]
]

sort_by_rss-IsFalling : (ps : List ProcessStat) → IsFalling (sort_by_rss ps)
unfolding sort_by_rss
sort_by_rss-IsFalling [] = tt
sort_by_rss-IsFalling (p ∷ ps) =
    insert_by_rss-IsFalling p (sort_by_rss ps) (sort_by_rss-IsFalling ps)

insert_by_rss-any :
    (t : ProcessStat → Bool) (p : ProcessStat) (ps : List ProcessStat)
    → any t (insert_by_rss p ps) ≡ (t p || any t ps)
unfolding insert_by_rss any
insert_by_rss-any t p [] = refl
insert_by_rss-any t p (q ∷ ps) = ground (arith, insert_by_rss-any t p ps)

sort_by_rss-any :
    (t : ProcessStat → Bool) (ps : List ProcessStat) → any t (sort_by_rss ps) ≡ any t ps
unfolding sort_by_rss any
sort_by_rss-any t [] = refl
sort_by_rss-any t (p ∷ ps) =
    ground (arith, insert_by_rss-any t p (sort_by_rss ps), sort_by_rss-any t ps)

take-drop-any :
    (t : ProcessStat → Bool) (n : ℕ) (ps : List ProcessStat)
    → (any t (take n ps) || any t (drop n ps)) ≡ any t ps
unfolding any
take-drop-any t zero ps = refl
take-drop-any t (suc n) [] = refl
take-drop-any t (suc n) (p ∷ ps) = ground (arith, take-drop-any t n ps)

take-IsFalling : (n : ℕ) (ps : List ProcessStat) → IsFalling ps → IsFalling (take n ps)
take-IsFalling zero ps h = tt
take-IsFalling (suc n) [] h = tt
take-IsFalling (suc zero) (p ∷ []) h = tt
take-IsFalling (suc (suc n)) (p ∷ []) h = tt
take-IsFalling (suc zero) (p ∷ q ∷ ps) (x, h) = tt
take-IsFalling (suc (suc n)) (p ∷ q ∷ ps) (x, h) = (x, take-IsFalling (suc n) (q ∷ ps) h)

abbrev pub AllAtMost : ℕ → List ProcessStat → Type 0
AllAtMost n = All (λ p. p.rss_pages ≤ n)

AllAtMost-weaken : (n m : ℕ) (ps : List ProcessStat) → n ≤ m → AllAtMost n ps → AllAtMost m ps
AllAtMost-weaken n m [] h a = tt
AllAtMost-weaken n m (p ∷ ps) h (b, a) = (omega arith, AllAtMost-weaken n m ps h a)

-- What follows a process in a falling list falls too, and has at most its memory.
IsFalling-tail :
    (p : ProcessStat) (ps : List ProcessStat)
    → IsFalling (p ∷ ps)
    → IsFalling ps × AllAtMost p.rss_pages ps
IsFalling-tail p [] h = (tt, tt)
IsFalling-tail p (q ∷ ps) (x, h) =
    let (f, b) = IsFalling-tail q ps h in (h, (x, AllAtMost-weaken q.rss_pages p.rss_pages ps x b))

drop-AllAtMost : (m n : ℕ) (ps : List ProcessStat) → AllAtMost m ps → AllAtMost m (drop n ps)
drop-AllAtMost m zero ps a = a
drop-AllAtMost m (suc n) [] a = tt
drop-AllAtMost m (suc n) (p ∷ ps) (b, a) = drop-AllAtMost m n ps a

-- What is left out has at most the memory of each that is kept.
take-drop-AllAtMost :
    (n : ℕ) (ps : List ProcessStat)
    → IsFalling ps
    → All (λ p. AllAtMost p.rss_pages (drop n ps)) (take n ps)
take-drop-AllAtMost zero ps h = tt
take-drop-AllAtMost (suc n) [] h = tt
take-drop-AllAtMost (suc n) (p ∷ ps) h =
    let (f, b) = IsFalling-tail p ps h in
    (drop-AllAtMost p.rss_pages n ps b, take-drop-AllAtMost n ps f)

insert_by_rss-length :
    (p : ProcessStat) (ps : List ProcessStat) → length (insert_by_rss p ps) ≡ suc (length ps)
unfolding insert_by_rss
insert_by_rss-length p [] = refl
insert_by_rss-length p (q ∷ ps) = ground (arith, insert_by_rss-length p ps)

sort_by_rss-length : (ps : List ProcessStat) → length (sort_by_rss ps) ≡ length ps
unfolding sort_by_rss
sort_by_rss-length [] = refl
sort_by_rss-length (p ∷ ps) =
    omega (arith, insert_by_rss-length p (sort_by_rss ps), sort_by_rss-length ps)

length-take : {A : Type 0} (n : ℕ) (xs : List A) → length (take n xs) ≡ min n (length xs)
length-take zero xs = omega arith
length-take (suc n) [] = omega arith
length-take (suc n) (x ∷ xs) = omega (arith, length-take n xs)

-- The largest of the processes with resident memory.
pub record IsTable (ps table : List ProcessStat) : Type 0 where
  pub size : length table ≡ min max_processes (length (resident ps))
  pub falling : IsFalling table
  pub left_out : List ProcessStat
  pub parted : (t : ProcessStat → Bool) → (any t table || any t left_out) ≡ any t (resident ps)
  pub largest : All (λ p. AllAtMost p.rss_pages left_out) table

-- The table holds the processes with resident memory, or 256 of them where there are more; it falls
-- in their memory, and what is left out has at most the memory of each process that is kept.
pub process_table-IsTable : (ps : List ProcessStat) → IsTable ps (process_table ps)
unfolding process_table
process_table-IsTable ps =
    let sorted = sort_by_rss (resident ps) in
    let falling = sort_by_rss-IsFalling (resident ps) in
    record {
      size =
          length-take max_processes sorted
          ∙ ap (λ n. min max_processes n) (sort_by_rss-length (resident ps));
      falling = take-IsFalling max_processes sorted falling;
      left_out = drop max_processes sorted;
      parted = λ t. take-drop-any t max_processes sorted ∙ sort_by_rss-any t (resident ps);
      largest = take-drop-AllAtMost max_processes sorted falling;
    }
