-- ===== src/Domain/Options.antt =====
-- The options of a job: crates/autoflow-domain/src/transfer.rs, scripts.rs and notify.rs.
use tidyflow.Domain.Error.{DomainError, validation}
use tidyflow.Base.Text.{Text, msg}
use tidyflow.Base.{ℕ, Option, false, Bool, Result, none, [], List, true, bail_if, ltb, ◌||◌}

pub record TransferOptions : Type 0 where
  pub smart_sync : Bool
  pub strict_hash_sync : Bool
  pub verify_after_copy : Bool
  pub stop_on_integrity_error : Bool
  pub encrypt_output : Bool
  pub encrypt_password : Option Text
  pub remember_encrypt_password : Bool
  pub remove_files_after_pack : Bool
  pub pack_filename : Option Text

unfoldable pub default_options : TransferOptions
default_options = record {
  smart_sync = false;
  strict_hash_sync = false;
  verify_after_copy = true;
  stop_on_integrity_error = false;
  encrypt_output = false;
  encrypt_password = none;
  remember_encrypt_password = false;
  remove_files_after_pack = false;
  pack_filename = none;
}

pub record ScriptsConfig : Type 0 where
  pub pre_script : Option Text
  pub post_script : Option Text
  pub timeout_secs : ℕ

unfoldable pub default_scripts : ScriptsConfig
default_scripts = record { pre_script = none; post_script = none; timeout_secs = 60 }

unfoldable pub validate_scripts : ScriptsConfig → Result DomainError (Unit {0})
validate_scripts s =
    bail_if (ltb s.timeout_secs 5 || ltb 600 s.timeout_secs)
      (validation (msg "script timeout must be between 5 and 600 seconds"))

pub data NotifyEvent : Type 0 where
  started completed failed : NotifyEvent

pub data NotifyChannel : Type 0 where
  generic : (url : Text) (headers : List (Text × Text)) → NotifyChannel
  discord : (webhook_url : Text) → NotifyChannel
  telegram : (bot_token chat_id : Text) (remember_token : Bool) → NotifyChannel

pub record NotifyConfig : Type 0 where
  pub enabled : Bool
  pub events : List NotifyEvent
  pub channels : List NotifyChannel

unfoldable pub default_notify : NotifyConfig
default_notify = record { enabled = false; events = []; channels = [] }
