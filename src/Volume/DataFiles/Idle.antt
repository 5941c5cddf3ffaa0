-- ===== src/Volume/DataFiles/Idle.antt =====
-- Which data files `close_idle` closes (data_file_cache.rs).
use fs.Prelude.{
  ℕ, zero, suc, ◌+◌, ◌-◌, ◌<◌, ◌≤◌, ◌≡◌, ◌⊎◌, inl, inr, Bool, Bool-cases, true, false, some, List,
  [], ◌∷◌, leb, num_eq, arith,
}
use fs.Core.Constants.{volume_data_file_idle_ttl_ms}
use fs.Volume.DataFiles.{DataFileSlot, get_slot, close_if_idle, close_idle}

get_slot-close_idle :
    (now : ℕ) (held : ℕ → Bool) (k i j : ℕ) (ss : List DataFileSlot) (s : DataFileSlot)
    → k + i ≡ j
    → get_slot ss i ≡ some s
    → get_slot (close_idle now held k ss) i ≡ some (close_if_idle now (held j) s)
unfolding close_idle
get_slot-close_idle now held k i j [] s e h = absurd cc
get_slot-close_idle now held k zero j (x ∷ xs) s e h =
    let same : k ≡ j = omega (arith, e) in ground (arith, h, same)
get_slot-close_idle now held k (suc i) j (x ∷ xs) s e h =
    get_slot-close_idle now held (suc k) i j xs s (omega (arith, e)) h

-- A slot stays as it is if it was never used, was used within the idle time, or is held by another
-- task; any other one is closed, and nothing else of it changes.
pub close_idle-cases :
    (now : ℕ) (held : ℕ → Bool) (ss : List DataFileSlot) (i : ℕ) (s : DataFileSlot)
    → get_slot ss i ≡ some s
    → ((get_slot (close_idle now held 0 ss) i ≡ some s)
        × ((s.last_access_ms ≡ 0)
            ⊎ ((now ≤ s.last_access_ms + volume_data_file_idle_ttl_ms) ⊎ (held i ≡ true))))
      ⊎ ((get_slot (close_idle now held 0 ss) i ≡ some (record s { open_now = false }))
          × (0 < s.last_access_ms)
          × (s.last_access_ms + volume_data_file_idle_ttl_ms < now)
          × (held i ≡ false))
unfolding close_if_idle
close_idle-cases now held ss i s h =
    let e = get_slot-close_idle now held 0 i i ss s (omega arith) h in
    elim (Bool-cases (num_eq s.last_access_ms 0)) [
      | inl p ↦ inl (ground (arith, e, p), inl (ground (arith, p)))
      | inr p ↦ elim (Bool-cases (leb (now - s.last_access_ms) volume_data_file_idle_ttl_ms)) [
        | inl q ↦ inl (ground (arith, e, p, q), inr (inl (ground (arith, q))))
        | inr q ↦ elim (Bool-cases (held i)) [
          | inl r ↦ inl (ground (arith, e, p, q, r), inr (inr r))
          | inr r ↦ inr (ground (arith, e, p, q, r), ground (arith, p), ground (arith, q), r)
        ]
      ]
    ]
