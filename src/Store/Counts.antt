-- ===== src/Store/Counts.antt =====
-- The NAS COUNT arithmetic of `NextUL` and `NextDL` (internal/store/gnb_ue_context.go and
-- enb_ue_context.go, where it stands twice). A count is a uint32.
use gpp_server.Common.{ℕ, ◌+◌, ◌*◌, ◌/◌, ◌%◌, ◌≤◌, ◌<◌, ◌≡◌, arith, ltb, if◌then◌else◌}
use gpp_server.Common.Bytes.{u32, IsByte}

-- `u.ULCount++`
unfoldable pub next_ul_count : ℕ → ℕ
next_ul_count count = u32 (count + 1)

-- `u.DLCount & 0xffffff00` clears the low octet.
unfoldable pub next_dl_count : ℕ → ℕ → ℕ
next_dl_count count sequence_number =
    if ltb sequence_number (count % 256)
    then u32 (u32 (count / 256 * 256 + 0x100) + sequence_number)
    else u32 (count / 256 * 256 + sequence_number)

-- Below the last overflow, the estimated downlink count is the least count that is not before the
-- last one and ends in the received sequence number.
pub next_dl_count_least :
    (count sequence_number : ℕ)
    → count < 4294967040
    → IsByte sequence_number
    → (count ≤ next_dl_count count sequence_number)
      × (next_dl_count count sequence_number % 256 ≡ sequence_number)
      × ((other : ℕ)
          → count ≤ other
          → other % 256 ≡ sequence_number
          → next_dl_count count sequence_number ≤ other)
unfolding next_dl_count
next_dl_count_least count sn h b = (ground arith, ground arith, λ other before ends. ground arith)
