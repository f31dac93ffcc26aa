-- ===== src/Commissioning/Stages.antt =====
-- winrt/Projection.cpp, ProjectCommissioningStage, ProjectCommissioningTransport and
-- ClassifyCommissioningFailure. `SdkStage` has the stages of the SDK that the source names, and any other.
use matter_winrt.Base.{ℕ, Bool, true, false, ◌≡◌, ◌↔◌, ◌⊎◌, arith, if◌then◌else◌}

pub data SdkStage : Type 0 where
  secure_pairing read_commissioning_info config_regulatory : SdkStage
  wifi_network_setup thread_network_setup : SdkStage
  request_wifi_credentials request_thread_credentials : SdkStage
  wifi_network_enable thread_network_enable : SdkStage
  find_operational_for_stay_active find_operational_for_commissioning_complete : SdkStage
  send_complete : SdkStage
  other : ℕ → SdkStage

-- MatterCommissioningStage.
pub data Stage : Type 0 where
  unknown searching_for_device connecting_over_bluetooth establishing_pase : Stage
  reading_commissioning_information configuring_regulatory_information : Stage
  provisioning_network connecting_device_to_network discovering_operational_device : Stage
  establishing_case sending_commissioning_complete : Stage

pub data Transport : Type 0 where
  bluetooth wifi thread operational_ip : Transport

-- MatterCommissioningFailureKind.
pub data FailureKind : Type 0 where
  unknown_failure overall_timeout device_not_found_over_bluetooth : FailureKind
  bluetooth_connection_failed pase_failed network_credentials_rejected : FailureKind
  device_network_connection_failed operational_discovery_timed_out : FailureKind
  case_establishment_failed commissioning_complete_failed : FailureKind

pub project_commissioning_stage : SdkStage → Stage
project_commissioning_stage secure_pairing = establishing_pase
project_commissioning_stage read_commissioning_info = reading_commissioning_information
project_commissioning_stage config_regulatory = configuring_regulatory_information
project_commissioning_stage wifi_network_setup = provisioning_network
project_commissioning_stage thread_network_setup = provisioning_network
project_commissioning_stage request_wifi_credentials = provisioning_network
project_commissioning_stage request_thread_credentials = provisioning_network
project_commissioning_stage wifi_network_enable = connecting_device_to_network
project_commissioning_stage thread_network_enable = connecting_device_to_network
project_commissioning_stage find_operational_for_stay_active = discovering_operational_device
project_commissioning_stage find_operational_for_commissioning_complete =
    discovering_operational_device
project_commissioning_stage send_complete = sending_commissioning_complete
project_commissioning_stage (other n) = unknown

pub project_commissioning_transport : SdkStage → Transport
project_commissioning_transport find_operational_for_stay_active = operational_ip
project_commissioning_transport find_operational_for_commissioning_complete = operational_ip
project_commissioning_transport send_complete = operational_ip
project_commissioning_transport wifi_network_setup = wifi
project_commissioning_transport wifi_network_enable = wifi
project_commissioning_transport thread_network_setup = thread
project_commissioning_transport thread_network_enable = thread
project_commissioning_transport _ = bluetooth

pub classify_commissioning_failure : Stage → Bool → FailureKind
classify_commissioning_failure searching_for_device timed_out = device_not_found_over_bluetooth
classify_commissioning_failure connecting_over_bluetooth timed_out = bluetooth_connection_failed
classify_commissioning_failure establishing_pase timed_out = pase_failed
classify_commissioning_failure provisioning_network timed_out = network_credentials_rejected
classify_commissioning_failure connecting_device_to_network timed_out =
    device_network_connection_failed
classify_commissioning_failure discovering_operational_device timed_out =
    operational_discovery_timed_out
classify_commissioning_failure establishing_case timed_out = case_establishment_failed
classify_commissioning_failure sending_commissioning_complete timed_out =
    commissioning_complete_failed
classify_commissioning_failure _ timed_out = if timed_out then overall_timeout else unknown_failure

-- A stage of the SDK runs over operational IP exactly if its failure, timed out or not, is projected as
-- one of operational discovery or of CommissioningComplete.
pub operational_failures :
    (s : SdkStage) (timed_out : Bool)
    → (project_commissioning_transport s ≡ operational_ip) ↔ (
        (classify_commissioning_failure (project_commissioning_stage s) timed_out
          ≡ operational_discovery_timed_out)
        ⊎ (classify_commissioning_failure (project_commissioning_stage s) timed_out
            ≡ commissioning_complete_failed))
unfolding project_commissioning_transport project_commissioning_stage classify_commissioning_failure
operational_failures secure_pairing b = ground arith
operational_failures read_commissioning_info true = ground arith
operational_failures read_commissioning_info false = ground arith
operational_failures config_regulatory true = ground arith
operational_failures config_regulatory false = ground arith
operational_failures wifi_network_setup b = ground arith
operational_failures thread_network_setup b = ground arith
operational_failures request_wifi_credentials b = ground arith
operational_failures request_thread_credentials b = ground arith
operational_failures wifi_network_enable b = ground arith
operational_failures thread_network_enable b = ground arith
operational_failures find_operational_for_stay_active b = ground arith
operational_failures find_operational_for_commissioning_complete b = ground arith
operational_failures send_complete b = ground arith
operational_failures (other n) true = ground arith
operational_failures (other n) false = ground arith
