-- ===== src/Tests/Settings.antt =====
-- The theorems on sequences of calls, writes and setters, on concrete runs.
use spinev_ble.Base.{◌≡◌, refl, true, false, some, List, [], ◌∷◌, ◌++◌, arith}
use spinev_ble.Base.Int.{pos, negsuc}
use spinev_ble.Errors.{ok, raise, value_error}
use spinev_ble.Models.{Bytes}
use spinev_ble.Protocol.Frames.{is_reply, build_read, decode_uint, parse_frame}
use spinev_ble.Charger.Write.{begin_write, write_events, send_frame}
use spinev_ble.Charger.Session.{require_transport, send, send_all, write_frames}
use spinev_ble.Charger.Session.Rules.{Follows}
use spinev_ble.Charger.Session.Trace.{Wrote, write_frames-Wrote}
use spinev_ble.Charger.Calls.{
  Call, perform_all, start_call, get_status_call, reboot_call, get_history_call, get_password_call,
}
use spinev_ble.Charger.Session.Quiet.{HasOnlyRead}
use spinev_ble.Charger.Calls.Monitor.{perform_all-HasOnlyRead}
use spinev_ble.Charger.Calls.Safe.{perform_all-Follows}
use spinev_ble.Charger.Settings.Methods.{commit, commit_if, apply_frames, sync_clock}
use spinev_ble.Charger.Settings.Sent.{commit_part}
use spinev_ble.Charger.Settings.Setters.{sync_clock_sends}
use spinev_ble.Charger.Settings.Refused.{timezone, apply_setting, apply_setting_refuses}
use spinev_ble.Tests.Data.{fresh_session, known_session, willing_world, silent_world, amperes, noon}

abbrev delay_frame : Bytes
delay_frame = 0x10 ∷ 0xAC ∷ 0xC2 ∷ 1 ∷ 0 ∷ 0 ∷ 2 ∷ 88 ∷ []

abbrev two_calls : List (Call amperes)
two_calls = start_call ∷ get_status_call ∷ reboot_call ∷ []

perform_all-Follows_example :
    Follows known_session (perform_all silent_world amperes two_calls known_session)
perform_all-Follows_example =
    perform_all-Follows silent_world amperes two_calls known_session (refl, refl)

abbrev watching : List (Call amperes)
watching = get_status_call ∷ get_history_call 5000 40 ∷ get_password_call ∷ []

perform_all-HasOnlyRead_example :
    HasOnlyRead known_session (perform_all silent_world amperes watching known_session)
perform_all-HasOnlyRead_example =
    perform_all-HasOnlyRead silent_world amperes watching known_session refl

write_frames-Wrote_example :
    let (r, t) = write_frames willing_world (delay_frame ∷ []) fresh_session in
    Wrote (delay_frame ∷ []) fresh_session t r
write_frames-Wrote_example =
    write_frames-Wrote willing_world (delay_frame ∷ []) fresh_session (refl, refl)

willing : (apply_frames willing_world (ok (delay_frame ∷ [])) true fresh_session).0 ≡ ok tt
unfolding apply_frames write_frames require_transport send_all send send_frame write_events
    begin_write commit_if commit spinev_ble.Charger.Settings.commit_frames
    spinev_ble.Protocol.Frames.build_commit
willing = refl

clock_set : (sync_clock willing_world (some noon) noon false fresh_session).0 ≡ ok tt
unfolding sync_clock apply_frames spinev_ble.Charger.Settings.clock_frames
    spinev_ble.Protocol.Clock.build_clock_time spinev_ble.Protocol.Frames.build_write_uint
    spinev_ble.Protocol.Clock.build_clock_date write_frames require_transport send_all send
    send_frame write_events begin_write commit_if
clock_set = refl

sync_clock_sends_example :
    (sync_clock willing_world (some noon) noon false fresh_session).1.handed
    ≡ []
      ++ ((0x10 ∷ 0xAC ∷ 0x3F ∷ 1 ∷ 0 ∷ 59 ∷ 0 ∷ 12 ∷ [])
          ∷ (0x10 ∷ 0xAC ∷ 0x40 ∷ 1 ∷ 0 ∷ 29 ∷ 1 ∷ 124 ∷ [])
          ∷ commit_part false)
sync_clock_sends_example =
    sync_clock_sends willing_world fresh_session noon noon false (omega arith) (omega arith)
      (omega arith) (omega arith) (omega arith) (omega arith) (omega arith) (omega arith)
      (omega arith) (refl, refl) clock_set

apply_setting_refuses_example :
    apply_setting willing_world (timezone (negsuc 4) (pos 0)) true fresh_session
    ≡ (raise value_error, fresh_session)
apply_setting_refuses_example =
    apply_setting_refuses willing_world fresh_session (timezone (negsuc 4) (pos 0)) true
      (λ ((n, e, _, _), _). cc)
