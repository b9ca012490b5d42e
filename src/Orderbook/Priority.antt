-- ===== src/Orderbook/Priority.antt =====
-- Price-time priority: the two orders that `sortBuys` and `sortSells` of
-- internal/correctness/orderbook.go put the sides in, and where the matching loop may break.
use nexus_bench.Base.{
  ℕ, ◌≡◌, refl, ◌∙◌, sym, Bool, List, [], ◌∷◌, arith, leb, if◌then◌else◌, All-map, sum_of, keep_if,
}
use nexus_bench.Base.Sorting.{sort_stable, IsSorted, sort_stable-IsSorted, sum_of-sort_stable}
use nexus_bench.Orderbook.{
  BookEntry, buys_before, sells_before, sort_buys, sort_sells, too_expensive, too_cheap, never_stop,
}
use nexus_bench.Orderbook.Matching.{volume, StaysStopped, eligible}

-- Ascending price, then arrival.
pub sort_sells-IsSorted : (es : List BookEntry) → IsSorted sells_before (sort_sells es)
unfolding sort_sells
sort_sells-IsSorted =
    sort_stable-IsSorted sells_before (λ a b h. ground arith) (λ a b c h k. ground arith)

-- Descending price, then arrival.
pub sort_buys-IsSorted : (es : List BookEntry) → IsSorted buys_before (sort_buys es)
unfolding sort_buys
sort_buys-IsSorted =
    sort_stable-IsSorted buys_before (λ a b h. ground arith) (λ a b c h k. ground arith)

sells_stop :
    (p : ℕ) (es : List BookEntry) → IsSorted sells_before es → StaysStopped (too_expensive p) es
sells_stop p [] s = tt
sells_stop p (e ∷ es) s = (λ h. All-map _ _ es (λ x k. ground arith) s.0, sells_stop p es s.1)

buys_stop : (p : ℕ) (es : List BookEntry) → IsSorted buys_before es → StaysStopped (too_cheap p) es
buys_stop p [] s = tt
buys_stop p (e ∷ es) s = (λ h. All-map _ _ es (λ x k. ground arith) s.0, buys_stop p es s.1)

pub sort_sells-StaysStopped :
    (p : ℕ) (es : List BookEntry) → StaysStopped (too_expensive p) (sort_sells es)
sort_sells-StaysStopped p es = sells_stop p (sort_sells es) (sort_sells-IsSorted es)

pub sort_buys-StaysStopped :
    (p : ℕ) (es : List BookEntry) → StaysStopped (too_cheap p) (sort_buys es)
sort_buys-StaysStopped p es = buys_stop p (sort_buys es) (sort_buys-IsSorted es)

pub never_stop-StaysStopped : (es : List BookEntry) → StaysStopped never_stop es
never_stop-StaysStopped [] = tt
never_stop-StaysStopped (e ∷ es) = (λ h. cc, never_stop-StaysStopped es)

-- The eligible quantity as a sum over all entries, which sorting does not change.
abbrev counted : (BookEntry → Bool) → BookEntry → ℕ
counted stop e = if stop e then 0 else e.remaining_q

volume-eligible :
    (stop : BookEntry → Bool) (es : List BookEntry)
    → volume (eligible stop es) ≡ sum_of (counted stop) es
volume-eligible stop [] = refl
volume-eligible stop (e ∷ es) = ground (arith, volume-eligible stop es)

pub volume-eligible-sort_stable :
    (less : BookEntry → BookEntry → Bool) (stop : BookEntry → Bool) (es : List BookEntry)
    → volume (eligible stop (sort_stable less es)) ≡ volume (eligible stop es)
volume-eligible-sort_stable less stop es =
    volume-eligible stop (sort_stable less es)
    ∙ sum_of-sort_stable less (counted stop) es
    ∙ sym (volume-eligible stop es)

-- An entry that may trade with an order at the price: the other way to say "no break".
pub eligible-sells :
    (p : ℕ) (es : List BookEntry) → eligible (too_expensive p) es ≡ keep_if (λ e. leb e.price p) es
eligible-sells p [] = refl
eligible-sells p (e ∷ es) = ground (arith, eligible-sells p es)

pub eligible-buys :
    (p : ℕ) (es : List BookEntry) → eligible (too_cheap p) es ≡ keep_if (λ e. leb p e.price) es
eligible-buys p [] = refl
eligible-buys p (e ∷ es) = ground (arith, eligible-buys p es)

pub eligible-all : (es : List BookEntry) → eligible never_stop es ≡ es
eligible-all [] = refl
eligible-all (e ∷ es) = ground (arith, eligible-all es)
