-- ===== src/Chain/ReorderBuffer/Tests.antt =====
-- Runs of `ReorderBuffer`, and its theorems at concrete arrivals. The blocks are their heights.
use redbit.Prelude.{ℕ, ◌+◌, ◌≡◌, refl, none, some, List, [], ◌∷◌, map, arith, length}
use redbit.Prelude.Assoc.{get}
use redbit.Chain.ReorderBuffer.{
  new, drain, see, admit, release, insert, pending_len, is_saturated, gap_span, feed,
}
use redbit.Chain.ReorderBuffer.Drain.{InRange, window}
use redbit.Chain.ReorderBuffer.Delivery.{feed-window}

program : Unit {0}
unfolding new drain see admit release insert pending_len is_saturated gap_span feed
program = tt

-- test `duplicates_ignored`, with a late block at the end
abbrev arrivals : List (ℕ × ℕ)
arrivals = (12, 112) ∷ (12, 212) ∷ (10, 110) ∷ (14, 114) ∷ (11, 111) ∷ (3, 103) ∷ []

abbrev reordered : List (ℕ × ℕ)
reordered = (10, 110) ∷ (11, 111) ∷ (3, 103) ∷ (14, 114) ∷ (12, 112) ∷ (12, 212) ∷ []

duplicates_ignored : (feed arrivals (new 10 1024)).1 ≡ 110 ∷ 111 ∷ 112 ∷ []
unfolding program
duplicates_ignored = refl

-- test `diagnostics_show_gap_span`
diagnostics_show_gap_span :
    let r = (feed {TB = ℕ} ((52, 0) ∷ (53, 0) ∷ (60, 0) ∷ (61, 0) ∷ (62, 0) ∷ []) (new 50 4)).0 in
    (gap_span r ≡ some (50, 62)) × (pending_len r ≡ 5)
unfolding program
diagnostics_show_gap_span = (refl, refl)

arrivals-InRange : InRange arrivals
arrivals-InRange h b found = ground arith

feed-window_example :
    (map some (feed arrivals (new 10 1024)).1
      ≡ window arrivals 10 (length (feed arrivals (new 10 1024)).1))
    × ((feed arrivals (new 10 1024)).0.next_height ≡ 10 + length (feed arrivals (new 10 1024)).1)
    × (get (feed arrivals (new 10 1024)).0.next_height arrivals ≡ none)
feed-window_example = feed-window 10 1024 arrivals arrivals-InRange
