-- ===== src/Compost/Status.antt =====
-- The status of a bin over time, which is resolved when it is read.
use brandish_bot_go.Prelude.{ℕ, ◌+◌, ◌≤◌, ◌≡◌, refl, ap, true, leb, arith, Bool-cases, inl, inr}
use brandish_bot_go.Compost.{
  CompostBinStatus, idle, composting, ready, sludge, CompostBin, sludge_timeout, status_at,
  resolve_lazy_bin_status,
}
use brandish_bot_go.Compost.Bins.{IsBin, IsBinOf}

at_most_due : (now r s : ℕ) → r + sludge_timeout ≤ s → leb s now ≡ true → leb r now ≡ true
at_most_due now r s h e = ground (arith, h)

due_later : (now later at : ℕ) → now ≤ later → leb at now ≡ true → leb at later ≡ true
due_later now later at h e = ground arith

-- To resolve the status of a stored bin at a time and later again gives what the later time alone
-- gives.
resolve_lazy_bin_status-twice :
    (bin : CompostBin) (now later : ℕ)
    → IsBin bin
    → now ≤ later
    → resolve_lazy_bin_status later (resolve_lazy_bin_status now bin)
      ≡ resolve_lazy_bin_status later bin
unfolding resolve_lazy_bin_status
resolve_lazy_bin_status-twice bin now later h le =
    ap (λ s. record bin { status = s }) (twice bin.status h.0)
  where
    twice :
        (s : CompostBinStatus)
        → IsBinOf s bin
        → status_at later (status_at now s bin.ready_at bin.sludge_at) bin.ready_at bin.sludge_at
          ≡ status_at later s bin.ready_at bin.sludge_at
    twice idle g = refl
    twice composting (start, r, t, _, er, et, _, week) =
        rw (er, et)
          (elim (Bool-cases (leb t now)) [
            | inl late ↦
                rw
                  (
                    late,
                    at_most_due now r t week late,
                    due_later now later t le late,
                    at_most_due later r t week (due_later now later t le late),
                  )
                  refl
            | inr early ↦ elim (Bool-cases (leb r now)) [
              | inl past ↦ rw (early, past, due_later now later r le past) refl
              | inr before ↦ rw before refl
            ]
          ])
    twice ready g = absurd g
    twice sludge g = absurd g
