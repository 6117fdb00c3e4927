-- ===== src/Charger/Calls/Orderly.antt =====
-- Each writing method of the client against the rules of `Session/Rules`, and the reading methods
-- as one.
use mathlib.Core.List.{append-nil}
use spinev_ble.Base.{sym, Bool, true, false, List, [], Option, none, some}
use spinev_ble.Float.{Floats}
use spinev_ble.Const.Registers.{Command}
use spinev_ble.Errors.{Result}
use spinev_ble.Models.{Bytes}
use spinev_ble.Protocol.Control.{PyValue}
use spinev_ble.Charger.Session.{World}
use spinev_ble.Charger.Session.Rules.{
  IsOrderly, orderly, Follows-refl, request-IsOrderly, require_transport-IsOrderly, send-IsOrderly,
  write_frames-IsOrderly,
}
use spinev_ble.Charger.Session.Preserve.{bind-Preserves, lift-Preserves, pure-Preserves}
use spinev_ble.Charger.Calls.Reading.{Reading, get_password-Preserves, get_state_value-Preserves}
use spinev_ble.Charger.Reads.{get_state_value}
use spinev_ble.Charger.Control.{
  stored_password, store_password, password_or_read, require_password, send_control,
}
use spinev_ble.Charger.Limit.{check_no_session, write_limit, set_current_limit}
use spinev_ble.Charger.Settings.Methods.{commit, commit_if, apply_frames}
use spinev_ble.Charger.History.{collecting}
use spinev_ble.Charger.History.Collect.{collect_bulk-IsIdle}

ruleset writing =
    (bind-Preserves, lift-Preserves, pure-Preserves, request-IsOrderly, write_frames-IsOrderly)

module _ (w : World) where
  -- The reading methods are orderly.
  abbrev pub orderly_reading : Reading w orderly
  unfolding collecting
  orderly_reading = record {
    asks = λ frame register _. request-IsOrderly w frame register;
    sends = λ frame _. send-IsOrderly w frame;
    opens = require_transport-IsOrderly w;
    clears = record {
      keeps = λ s i. record { idle = i; more = []; extends = sym (append-nil s.handed) };
    };
    takes = record {
      keeps = λ s i. record { idle = i; more = []; extends = sym (append-nil s.handed) };
    };
    collects = λ timeout. record {
      keeps = λ s i. record {
        idle = collect_bulk-IsIdle timeout (w.arrivals s.handed) s.client i;
        more = [];
        extends = sym (append-nil s.handed);
      };
    };
  }

  stored_password-IsOrderly : IsOrderly stored_password
  stored_password-IsOrderly = record { keeps = Follows-refl }

  store_password-IsOrderly : (v : PyValue) → IsOrderly (store_password v)
  store_password-IsOrderly v = record {
    keeps = λ s i. record { idle = i; more = []; extends = sym (append-nil s.handed) };
  }

  password_or_read-IsOrderly : (v : Option PyValue) → IsOrderly (password_or_read w v)
  unfolding password_or_read
  password_or_read-IsOrderly none =
      bind-Preserves orderly _ _ (get_password-Preserves w orderly orderly_reading)
        (λ n. store_password-IsOrderly _)
  password_or_read-IsOrderly (some v) = pure-Preserves orderly v

  pub send_control-IsOrderly : (c : Command) → IsOrderly (send_control w c)
  unfolding send_control require_password
  send_control-IsOrderly c =
      search (writing, stored_password-IsOrderly, password_or_read-IsOrderly) depth 12

  pub commit-IsOrderly : IsOrderly (commit w)
  unfolding commit
  commit-IsOrderly = search writing depth 9

  commit_if-IsOrderly : (b : Bool) → IsOrderly (commit_if w b)
  unfolding commit_if
  commit_if-IsOrderly true = commit-IsOrderly
  commit_if-IsOrderly false = pure-Preserves orderly tt

  pub apply_frames-IsOrderly :
      (frames : Result (List Bytes)) (b : Bool) → IsOrderly (apply_frames w frames b)
  unfolding apply_frames
  apply_frames-IsOrderly frames b = search (writing, commit_if-IsOrderly) depth 12

  state-IsOrderly : IsOrderly (get_state_value w)
  state-IsOrderly = get_state_value-Preserves w orderly orderly_reading

  check_no_session-IsOrderly : (b : Bool) → IsOrderly (check_no_session w b)
  unfolding check_no_session
  check_no_session-IsOrderly true = pure-Preserves orderly tt
  check_no_session-IsOrderly false = search (writing, state-IsOrderly) depth 9

  pub set_current_limit-IsOrderly :
      (f : Floats) (a m : f.Float) (b c : Bool) → IsOrderly (set_current_limit w f a m b c)
  unfolding set_current_limit write_limit
  set_current_limit-IsOrderly f a m b c =
      search (writing, check_no_session-IsOrderly, commit_if-IsOrderly) depth 16
