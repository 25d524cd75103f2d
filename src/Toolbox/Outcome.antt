-- ===== src/Toolbox/Outcome.antt =====
-- The outcome of a `bsd:s` UDP poll: toolbox/src/bsd_system_udp_outcome.hpp and .cpp. The poll bits
-- are those of the platform's poll.h, and parameters here.
use Prim.Native.Nat.{bit_and}
use nx_reverse.Base.{
  ℕ, Bool, true, false, not, ◌&&◌, ◌≡◌, ◌≢◌, ◌↔◌, arith, ◌==◌, if◌then◌else◌, ℤ, pos, negsuc,
}

pub data BsdSystemUdpExpectedOutcome : Type 0 where
  echo_reply no_reply_timeout terminal_closure : BsdSystemUdpExpectedOutcome

pub data BsdPollObservation : Type 0 where
  timeout readable closed error unexpected : BsdPollObservation

module _ (pollin pollhup : ℕ) where
  -- `ClassifyBsdPollObservation`; the negative results of `poll` are `negsuc`.
  unfoldable pub classify_bsd_poll_observation : ℤ → ℕ → BsdPollObservation
  classify_bsd_poll_observation (negsuc n) revents = error
  classify_bsd_poll_observation (pos poll_result) revents =
      if poll_result == 0
      then timeout
      else if not (bit_and revents pollhup == 0)
      then closed
      else if not (bit_and revents pollin == 0)
      then readable
      else unexpected

-- `IsExpectedBsdPollObservation`
unfoldable pub is_expected_bsd_poll_observation :
    BsdSystemUdpExpectedOutcome → BsdPollObservation → Bool
is_expected_bsd_poll_observation echo_reply readable = true
is_expected_bsd_poll_observation echo_reply _ = false
is_expected_bsd_poll_observation no_reply_timeout timeout = true
is_expected_bsd_poll_observation no_reply_timeout _ = false
is_expected_bsd_poll_observation terminal_closure closed = true
is_expected_bsd_poll_observation terminal_closure _ = false

-- `HasWritableRecovery`
unfoldable pub has_writable_recovery : ℕ → Bool → Bool
has_writable_recovery queue_full_retries observed_pollout =
    not (queue_full_retries == 0) && observed_pollout

-- What a poll must show for each expected outcome.
abbrev pub Meets : ℕ → ℕ → BsdSystemUdpExpectedOutcome → ℤ → ℕ → Type 0
Meets pollin pollhup expected (negsuc n) revents = ⊥
Meets pollin pollhup no_reply_timeout (pos count) revents = count ≡ 0
Meets pollin pollhup terminal_closure (pos count) revents =
    (count ≢ 0) × (bit_and revents pollhup ≢ 0)
Meets pollin pollhup echo_reply (pos count) revents =
    (count ≢ 0) × (bit_and revents pollhup ≡ 0) × (bit_and revents pollin ≢ 0)

-- A poll meets the expected outcome exactly when it does not fail and: nothing is ready, for no
-- reply; something is, with the hang-up bit set, for a closure; something is, with the readable bit
-- set and the hang-up bit clear, for an echo.
pub is_expected-classify_iff :
    (pollin pollhup : ℕ) (expected : BsdSystemUdpExpectedOutcome) (result : ℤ) (revents : ℕ)
    → (is_expected_bsd_poll_observation expected
          (classify_bsd_poll_observation pollin pollhup result revents)
        ≡ true)
      ↔ Meets pollin pollhup expected result revents
unfolding is_expected_bsd_poll_observation classify_bsd_poll_observation
is_expected-classify_iff pollin pollhup no_reply_timeout (negsuc n) revents = ground arith
is_expected-classify_iff pollin pollhup no_reply_timeout (pos count) revents = ground arith
is_expected-classify_iff pollin pollhup terminal_closure (negsuc n) revents = ground arith
is_expected-classify_iff pollin pollhup terminal_closure (pos count) revents = ground arith
is_expected-classify_iff pollin pollhup echo_reply (negsuc n) revents = ground arith
is_expected-classify_iff pollin pollhup echo_reply (pos count) revents = ground arith
