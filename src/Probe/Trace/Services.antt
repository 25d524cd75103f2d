-- ===== src/Probe/Trace/Services.antt =====
-- The services that have a code in net-probe/src/mitm_trace.cpp have a binary trace of their family.
use nx_reverse.Base.{
  ℕ, ◌≡◌, ◌≢◌, inl, inr, refl, sym, some, List, [], ◌∷◌, Bytes, equal, equal_iff, starts_with, All,
  Bool-cases, ◌/◌,
}
use mathlib.Core.Path.{subst}
use nx_reverse.Probe.Trace.{
  TraceFamily, broadcast, nifm, bsd, ssl, notif, TraceServiceCode, unknown, code_value,
  known_services, code_among, get_trace_service_code, get_trace_family, get_trace_sink,
}

-- The family whose number is the high byte of a code.
abbrev pub family_number : TraceFamily → ℕ
family_number broadcast = 0
family_number nifm = 1
family_number bsd = 2
family_number ssl = 3
family_number notif = 4

-- What a known name has.
pub record IsTraced (name : Bytes) (code : TraceServiceCode) : Type 0 where
  pub high_byte : code_value code / 256 ≡ family_number (get_trace_family name)
  pub path : Bytes
  pub sink : get_trace_sink (get_trace_family name) ≡ some path

known-IsTraced : All (λ s. IsTraced s.0 s.1) known_services
unfolding known_services get_trace_family get_trace_sink code_value starts_with equal
known-IsTraced = (
  record { high_byte = refl; path = _; sink = refl },
  (
    record { high_byte = refl; path = _; sink = refl },
    (
      record { high_byte = refl; path = _; sink = refl },
      (
        record { high_byte = refl; path = _; sink = refl },
        (
          record { high_byte = refl; path = _; sink = refl },
          (
            record { high_byte = refl; path = _; sink = refl },
            (
              record { high_byte = refl; path = _; sink = refl },
              (record { high_byte = refl; path = _; sink = refl }, tt),
            ),
          ),
        ),
      ),
    ),
  ),
)

code_among-IsTraced :
    (name : Bytes) (services : List (Bytes × TraceServiceCode))
    → All (λ s. IsTraced s.0 s.1) services
    → code_among name services ≢ unknown
    → IsTraced name (code_among name services)
unfolding code_among
code_among-IsTraced name [] _ known = absurd (known refl)
code_among-IsTraced name ((n, code) ∷ services) (h, hs) known = elim (Bool-cases (equal name n)) [
  | inl same ↦ rw same (subst (λ m. IsTraced m code) (sym ((equal_iff name n).0 same)) h)
  | inr other ↦ rw other (code_among-IsTraced name services hs (rw other at known))
]

-- A service that has a code has a binary trace: the family of its name has a path, and the high byte
-- of the code is the number of that family.
get_trace_service_code-IsTraced :
    (name : Bytes)
    → get_trace_service_code (some name) ≢ unknown
    → IsTraced name (get_trace_service_code (some name))
unfolding get_trace_service_code
get_trace_service_code-IsTraced name known =
    code_among-IsTraced name known_services known-IsTraced known
