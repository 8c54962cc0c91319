-- ===== src/Torrent/Update/Gaps.antt =====
-- The loop of file_info_update over the window: what its position says of the pieces.
use t2h.Common.{ℕ, ◌+◌, ◌≤◌, ◌==◌, false, List, some, get_elem?, ◌≡◌}

-- Each of the positions from a to b holds the piece before the next one's.
abbrev pub IsRun : List ℕ → (a b : ℕ) → Type 0
IsRun av a b =
    (i : ℕ)
    → a ≤ i
    → i ≤ b
    → (p : ℕ) × ((get_elem? av i ≡ some p) × (get_elem? av (i + 1) ≡ some (p + 1)))

-- The piece behind the position does not follow the one there.
abbrev pub IsGap : List ℕ → ℕ → Type 0
IsGap av i =
    (p : ℕ) × ((q : ℕ) × ((get_elem? av i ≡ some p)
        × ((get_elem? av (i + 1) ≡ some q) × ((p + 1 == q) ≡ false))))
