-- ===== src/Storage/Retry/Tests.antt =====
-- An operation that fails twice, with five attempts, and with two.
use redbit.Prelude.{ℕ, suc, ◌≡◌, refl, some, ltb, if◌then◌else◌, arith}
use redbit.Storage.Retry.{Returned, retry_from, retry_with_delay}
use redbit.Storage.Retry.Attempts.{StopsAt, retry_with_delay_lem}

abbrev op : ℕ → Returned ℕ ℕ
op i = if ltb i 2 then Returned.err i else Returned.ok i

third_call_succeeds :
    retry_with_delay op 5 ≡ some (record { calls = 3; delays = 2; result = Returned.ok 2 })
unfolding retry_with_delay retry_from
third_call_succeeds = refl

last_error_stays :
    retry_with_delay op 2 ≡ some (record { calls = 2; delays = 1; result = Returned.err 1 })
unfolding retry_with_delay retry_from
last_error_stays = refl

retry_with_delay_lem_example :
    (n : ℕ) × (retry_with_delay op 5 ≡ some (record { calls = suc n; delays = n; result = op n }))
    × StopsAt op 5 n
retry_with_delay_lem_example = retry_with_delay_lem op 5 (omega arith)
