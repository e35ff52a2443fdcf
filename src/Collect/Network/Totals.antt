-- ===== src/Collect/Network/Totals.antt =====
-- crates/sg-collect/src/network.rs: which interfaces the totals of the host count.
use server_glass.Base.{
  ℕ, ◌+◌, ◌%◌, ◌^◌, ◌<◌, ◌≡◌, refl, ap, ◌∙◌, Bool, inl, inr, List, [], ◌∷◌, Text, filter, ltb, not,
  ◌&&◌, ◌||◌, text_eq, codes, length, ◌==◌, any, arith, Bool-cases, add_where,
}
use server_glass.Collect.Network.{
  InterfaceStats, host_rx, host_tx, is_counted, is_shown, is_loopback, is_idle, counts_toward_total,
}

abbrev pub sum_of : {A : Type 0} → (A → ℕ) → List A → ℕ
sum_of f [] = 0
sum_of f (x ∷ xs) = f x + sum_of f xs

mod_add : (a b : ℕ) → (a % 2 ^ 64 + b) % 2 ^ 64 ≡ (a + b) % 2 ^ 64
mod_add a b = omega arith

module _ {A : Type 0} (p : A → Bool) (f : A → ℕ) where
  add_where-sum_from :
      (xs : List A) (n : ℕ)
      → n < 2 ^ 64
      → add_where p f xs n ≡ (n + sum_of f (filter p xs)) % 2 ^ 64
  unfolding add_where filter
  add_where-sum_from [] n b = ground arith
  add_where-sum_from (x ∷ xs) n b = elim (Bool-cases (p x)) [
    | inl e ↦ rw e (
        add_where-sum_from xs ((n + f x) % 2 ^ 64) (omega arith)
        ∙ mod_add (n + f x) (sum_of f (filter p xs))
        ∙ ap (λ m. m % 2 ^ 64) (omega arith))
    | inr e ↦ rw e (add_where-sum_from xs n b)
  ]

  -- A total on 64 bits is the sum of what passes the test, wrapped around.
  pub add_where-sum : (xs : List A) → add_where p f xs 0 ≡ sum_of f (filter p xs) % 2 ^ 64
  add_where-sum xs = add_where-sum_from xs 0 (omega arith) ∙ ap (λ m. m % 2 ^ 64) (omega arith)

module _ {A : Type 0} (p q : A → Bool) (same : (x : A) → p x ≡ q x) where
  filter_cong : (xs : List A) → filter p xs ≡ filter q xs
  unfolding filter
  filter_cong [] = refl
  filter_cong (x ∷ xs) = ground (arith, same x, filter_cong xs)

-- The interface has carried traffic, is not the loopback device `lo`, and is one of the physical
-- ones where any is known.
abbrev pub is_traffic : List Text → InterfaceStats → Bool
is_traffic physical i =
    (ltb 0 i.rx_bytes || ltb 0 i.tx_bytes)
    && not (text_eq i.name (codes "lo"))
    && (length physical == 0 || any (λ name. text_eq name i.name) physical)

is_counted-is_traffic :
    (physical : List Text) (i : InterfaceStats) → is_counted physical i ≡ is_traffic physical i
unfolding is_counted is_shown is_idle is_loopback counts_toward_total
is_counted-is_traffic [] i = ground arith
is_counted-is_traffic (p ∷ ps) i = ground arith

add_where-is_traffic :
    (f : InterfaceStats → ℕ) (physical : List Text) (all : List InterfaceStats)
    → add_where (is_counted physical) f all 0 ≡ sum_of f (filter (is_traffic physical) all) % 2 ^ 64
add_where-is_traffic f physical all =
    add_where-sum (is_counted physical) f all
    ∙ ap (λ xs. sum_of f xs % 2 ^ 64)
        (filter_cong (is_counted physical) (is_traffic physical) (is_counted-is_traffic physical)
          all)

-- The totals received and sent are the sums, wrapped around, over exactly the interfaces that have
-- carried traffic and are not the loopback device `lo`: all of these where no physical interface is
-- known, and else those of them that are physical.
pub host_totals_lem :
    (physical : List Text) (all : List InterfaceStats)
    → (host_rx physical all ≡ sum_of (λ i. i.rx_bytes) (filter (is_traffic physical) all) % 2 ^ 64)
      × (host_tx physical all
          ≡ sum_of (λ i. i.tx_bytes) (filter (is_traffic physical) all) % 2 ^ 64)
unfolding host_rx host_tx
host_totals_lem physical all = (
  add_where-is_traffic (λ i. i.rx_bytes) physical all,
  add_where-is_traffic (λ i. i.tx_bytes) physical all,
)
