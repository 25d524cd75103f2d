-- ===== src/Probe/Mitm.antt =====
-- The services that the network probe takes over (net-probe/src/mitm_service.cpp): the programs and
-- build settings that its policy knows, and the state that its decisions and sessions share.
pub mod Policy
pub mod Sessions
pub mod Servers
use nx_reverse.Base.{ℕ, ◌+◌, ◌%◌, ◌^◌, Bool, true, false, List, [], ◌∷◌, Bytes, codes}

-- The program ids that come from the Atmosphère headers and from the build.
pub record Programs : Type 0 where
  pub bsd_sockets : ℕ
  pub npns : ℕ
  pub eupld : ℕ
  pub olsc : ℕ
  pub ssl : ℕ
  pub nim : ℕ
  pub qlaunch : ℕ
  pub toolbox_forwarder : ℕ

abbrev pub wireguard_program_id : ℕ
wireguard_program_id = 0x010000000000EAD0

abbrev pub net_probe_program_id : ℕ
net_probe_program_id = 0x010000000000EAD1

abbrev pub sphaira_wrapper_program_id : ℕ
sphaira_wrapper_program_id = 0x05446530ACA7E000

-- `None` is spelled out, since it is a constructor of `Option` here.
pub data NifmSystemMitmTarget : Type 0 where
  no_target only_nim only_qlaunch all : NifmSystemMitmTarget

pub data ToolboxForwarderBsdMitmMode : Type 0 where
  no_session first_only second_only both : ToolboxForwarderBsdMitmMode

-- `static_cast<u32>(mode)`
abbrev pub mode_value : ToolboxForwarderBsdMitmMode → ℕ
mode_value no_session = 0
mode_value first_only = 1
mode_value second_only = 2
mode_value both = 3

-- The constants of net-probe/src/build_config.hpp that the policy reads.
pub record BuildConfig : Type 0 where
  pub nifm_system_trace_target : NifmSystemMitmTarget
  pub allow_bsd_system_npns : Bool
  pub allow_bsd_system_eupld : Bool
  pub allow_bsd_system_olsc : Bool
  pub allow_bsd_system_bsd_sockets : Bool
  pub allow_bsd_system_ssl : Bool
  pub allow_bsd_system_nim : Bool
  pub allow_bsd_system_sphaira_wrapper : Bool
  pub allow_bsd_system_toolbox_forwarder : Bool
  pub allow_bsd_admin_qlaunch : Bool
  pub allow_ssl_npns : Bool
  pub allow_ssl_eupld : Bool
  pub allow_ssl_olsc : Bool
  pub toolbox_forwarder_bsd_mitm : ToolboxForwarderBsdMitmMode

-- The values in the file.
abbrev pub build_config : BuildConfig
build_config = record {
  nifm_system_trace_target = only_qlaunch;
  allow_bsd_system_npns = false;
  allow_bsd_system_eupld = false;
  allow_bsd_system_olsc = false;
  allow_bsd_system_bsd_sockets = false;
  allow_bsd_system_ssl = false;
  allow_bsd_system_nim = false;
  allow_bsd_system_sphaira_wrapper = false;
  allow_bsd_system_toolbox_forwarder = true;
  allow_bsd_admin_qlaunch = false;
  allow_ssl_npns = false;
  allow_ssl_eupld = false;
  allow_ssl_olsc = false;
  toolbox_forwarder_bsd_mitm = both;
}

-- `PortIndex`
pub data PortIndex : Type 0 where
  nifm_user nifm_system bsd_user bsd_system bsd_admin ssl_user ssl_system notification_system :
      PortIndex

-- The names in `g_mitm_target_configs`.
abbrev pub service_name_text : PortIndex → Bytes
service_name_text nifm_user = codes "nifm:u"
service_name_text nifm_system = codes "nifm:s"
service_name_text bsd_user = codes "bsd:u"
service_name_text bsd_system = codes "bsd:s"
service_name_text bsd_admin = codes "bsd:a"
service_name_text ssl_user = codes "ssl"
service_name_text ssl_system = codes "ssl:s"
service_name_text notification_system = codes "notif:s"

-- What the policy reads of a `MitmProcessInfo`.
pub record MitmProcessInfo : Type 0 where
  pub process_id : ℕ
  pub program_id : ℕ

pub data ShouldMitmPolicyReason : Type 0 where
  default_allow self_program denylisted_program bsd_system_session_outstanding diagnostic_override
        toolbox_forwarder_ordinal_deny nifm_system_not_targeted bsd_system_not_allowlisted :
      ShouldMitmPolicyReason

-- What `RecordShouldMitmPolicyDecision` hands to the monitor.
pub record Decision : Type 0 where
  pub service_name : Bytes
  pub client_info : MitmProcessInfo
  pub result : Bool
  pub reason : ShouldMitmPolicyReason
  pub pending_count : ℕ
  pub active_count : ℕ
  pub total_denials : ℕ
  pub holder_tag : ℕ
  pub detail_value3 : ℕ

-- The counters `g_bsd_system_*` and `g_toolbox_forwarder_bsd_ordinal_*`, and what was handed to the
-- monitor, the last decision first.
pub record MitmState : Type 0 where
  pub pending_mitm_sessions : ℕ
  pub active_mitm_sessions : ℕ
  pub total_mitm_denials : ℕ
  pub ordinal_pid : ℕ
  pub ordinal_count : ℕ
  pub decisions : List Decision

-- As the program starts.
abbrev pub initial_mitm : MitmState
initial_mitm = record {
  pending_mitm_sessions = 0;
  active_mitm_sessions = 0;
  total_mitm_denials = 0;
  ordinal_pid = 0;
  ordinal_count = 0;
  decisions = [];
}

-- `+ 1` on `u32`
abbrev pub increment : ℕ → ℕ
increment n = (n + 1) % 2 ^ 32
