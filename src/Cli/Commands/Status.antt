-- ===== src/Cli/Commands/Status.antt =====
-- The status command, to the last line that it prints.
use spinev_ble.Base.{subst, ℕ, ◌≡◌, refl, sym, ap, ◌∙◌, Option, none, some, List, [], ◌∷◌, ◌++◌}
use spinev_ble.Errors.{ok}
use spinev_ble.Float.{Floats}
use Prim.Native.String.{String}
use spinev_ble.Const.States.{ChargerState, to_state, state_code}
use spinev_ble.Models.{Bytes, Text, ChargerStatus}
use spinev_ble.Charger.Session
use spinev_ble.Charger.Session.{World, Session, M, pure, lift}
use spinev_ble.Charger.Session.Steps.{bind_inv}
use spinev_ble.Const.Registers.{
  register_value, power, voltage, current, current_limit, session_energy, session_seconds,
  lifetime_energy, lifetime_seconds, firmware_version,
}
use spinev_ble.Protocol.Frames.{decode_energy}
use spinev_ble.Protocol.Text.{decode_firmware_version}
use spinev_ble.Charger.Reads.{
  get_status, get_state_value, read_float, read_raw, read_uint, get_alarms,
}
use spinev_ble.Cli.{done}
use spinev_ble.Cli.Number.{decimal}
use spinev_ble.Cli.Lines.{codes, Formats, format_reading, state_text, status_lines}
use spinev_ble.Cli.Lines.Spelled.{name_at, listed, state_name_lem, alarm_text_lem}
use spinev_ble.Cli.Run.{Run, Surroundings, Args}
use spinev_ble.Cli.Run.Rules.{chosen_lines}
use spinev_ble.Cli.Commands.{cmd_status}
use spinev_ble.Cli.Commands.Readings.{read_command}

-- A value that a method returns, in some session.
abbrev pub Gives : {A : Type 0} → M A → A → Type 0
Gives m a = (t : Session) × ((m t).0 ≡ ok a)

-- What a method returns, when it returns, has a property.
record Returns {A : Type 0} (P : A → Type 0) (m : M A) : Type 0 where
  pub returned : (s : Session) (a : A) → (m s).0 ≡ ok a → P a

module _ {A : Type 0} (P : A → Type 0) where
  bind-Returns :
      {B : Type 0} (m : M B) (f : B → M A)
      → ((b : B) → Gives m b → Returns P (f b))
      → Returns P (Session.◌>>=◌ m f)
  bind-Returns m f h = record {
    returned = λ s a e.
        let (b, k, g) = bind_inv m f s e in
        (h b (s, ap (λ p. p.0) k)).returned (m s).1 a (sym (ap (λ p. p.0) g) ∙ e);
  }

  pure-Returns : (a : A) → P a → Returns P (pure a)
  pure-Returns a h = record { returned = λ s b e. let same : a ≡ b = cc in subst P same h }

-- The readings of a status.
pub record Readings (F : Type 0) : Type 0 where
  pub state_number : ℕ
  pub seconds : ℕ
  pub total_seconds : ℕ
  pub energy : ℕ
  pub total_energy : ℕ
  pub watts : F
  pub volts : F
  pub amperes : F
  pub limit : F
  pub firmware : Text
  pub alarms : List String

module _ (w : World) (floats : Floats) where
  -- Each reading is what the charger answered to the read of its register.
  pub record IsRead (x : Readings floats.Float) : Type 0 where
    pub state_read : Gives (get_state_value w) x.state_number
    pub watts_read : Gives (read_float w floats power) x.watts
    pub volts_read : Gives (read_float w floats voltage) x.volts
    pub amperes_read : Gives (read_float w floats current) x.amperes
    pub limit_read : Gives (read_float w floats current_limit) x.limit
    pub energy_raw : Bytes
    pub energy_read : Gives (read_raw w (register_value session_energy) 0) energy_raw
    pub energy_decoded : decode_energy energy_raw ≡ ok x.energy
    pub seconds_read : Gives (read_uint w session_seconds) x.seconds
    pub total_raw : Bytes
    pub total_read : Gives (read_raw w (register_value lifetime_energy) 0) total_raw
    pub total_decoded : decode_energy total_raw ≡ ok x.total_energy
    pub total_seconds_read : Gives (read_uint w lifetime_seconds) x.total_seconds
    pub firmware_raw : Bytes
    pub firmware_read : Gives (read_raw w (register_value firmware_version) 0) firmware_raw
    pub firmware_decoded : decode_firmware_version firmware_raw ≡ ok x.firmware
    pub alarms_read : Gives (get_alarms w) x.alarms

  abbrev status_of : Readings floats.Float → ChargerStatus floats.Float
  status_of x = record {
    state = to_state x.state_number;
    state_value = some x.state_number;
    power_w = some x.watts;
    voltage_v = some x.volts;
    current_a = some x.amperes;
    current_limit_a = some x.limit;
    session_energy = some x.energy;
    session_seconds = some x.seconds;
    lifetime_energy = some x.total_energy;
    lifetime_seconds = some x.total_seconds;
    firmware_version = some x.firmware;
    alarms = x.alarms;
  }

  IsStatus : ChargerStatus floats.Float → Type 0
  IsStatus s = (x : Readings floats.Float) × IsRead x × (s ≡ status_of x)

  get_status-Returns : Returns IsStatus (get_status w floats)
  unfolding get_status IsStatus
  get_status-Returns = bind-Returns IsStatus (get_state_value w) _ λ v gv.
      bind-Returns IsStatus (read_float w floats power) _ λ a ga.
        bind-Returns IsStatus (read_float w floats voltage) _ λ b gb.
          bind-Returns IsStatus (read_float w floats current) _ λ c gc.
            bind-Returns IsStatus (read_float w floats current_limit) _ λ d gd.
              bind-Returns IsStatus (read_raw w (register_value session_energy) 0) _ λ e ge.
                bind-Returns IsStatus (lift (decode_energy e)) _ λ g gg.
                  bind-Returns IsStatus (read_uint w session_seconds) _ λ h gh.
                    bind-Returns IsStatus (read_raw w (register_value lifetime_energy) 0) _ λ i gi.
                      bind-Returns IsStatus (lift (decode_energy i)) _ λ j gj.
                        bind-Returns IsStatus (read_uint w lifetime_seconds) _ λ k gk.
                          bind-Returns IsStatus (read_raw w (register_value firmware_version) 0) _
                            λ l gl.
                              bind-Returns IsStatus (lift (decode_firmware_version l)) _ λ m gm.
                                bind-Returns IsStatus (get_alarms w) _ λ n gn.
                                  pure-Returns IsStatus _ (
                                    record {
                                      state_number = v;
                                      seconds = h;
                                      total_seconds = k;
                                      energy = g;
                                      total_energy = j;
                                      watts = a;
                                      volts = b;
                                      amperes = c;
                                      limit = d;
                                      firmware = m;
                                      alarms = n;
                                    },
                                    record {
                                      state_read = gv;
                                      watts_read = ga;
                                      volts_read = gb;
                                      amperes_read = gc;
                                      limit_read = gd;
                                      energy_raw = e;
                                      energy_read = ge;
                                      energy_decoded = gg.1;
                                      seconds_read = gh;
                                      total_raw = i;
                                      total_read = gi;
                                      total_decoded = gj.1;
                                      total_seconds_read = gk;
                                      firmware_raw = l;
                                      firmware_read = gl;
                                      firmware_decoded = gm.1;
                                      alarms_read = gn;
                                    },
                                    refl,
                                  )

module _ {F : Type 0} (formats : Formats F) where
  -- The report of the readings, line by line.
  abbrev pub report : Readings F → List Text
  report x =
      (codes "state            " ++ named (to_state x.state_number))
      ∷ (codes "power            " ++ formats.fixed 0 x.watts ++ codes " W")
      ∷ (codes "voltage          " ++ formats.fixed 1 x.volts ++ codes " V")
      ∷ (codes "current          " ++ formats.fixed 2 x.amperes ++ codes " A")
      ∷ (codes "current limit    " ++ formats.fixed 1 x.limit ++ codes " A")
      ∷ (codes "session energy   " ++ formats.fixed 2 (formats.energy x.energy) ++ codes " kWh")
      ∷ (codes "session time     " ++ decimal x.seconds ++ codes " s")
      ∷ (codes "lifetime energy  "
          ++ formats.fixed 2 (formats.energy x.total_energy)
          ++ codes " kWh")
      ∷ (codes "lifetime time    " ++ decimal x.total_seconds ++ codes " s")
      ∷ (codes "firmware         " ++ x.firmware)
      ∷ (codes "alarms           " ++ listed x.alarms)
      ∷ []
    where
      named : Option ChargerState → Text
      named none = codes "unknown (" ++ decimal x.state_number ++ codes ")"
      named (some s) = name_at (state_code s)

module _ {Link : Type 0} (env : Surroundings Link) (args : Args) (floats : Floats)
    (formats : Formats floats.Float) where
  lines_lem :
      (x : Readings floats.Float)
      → status_lines formats (status_of env.world floats x) ≡ report formats x
  unfolding status_lines state_text format_reading
  lines_lem x = by_state (to_state x.state_number) refl
    where
      by_state :
          (o : Option ChargerState)
          → to_state x.state_number ≡ o
          → status_lines formats (status_of env.world floats x) ≡ report formats x
      by_state none e = rw (alarm_text_lem x.alarms, e) refl
      by_state (some s) e = rw (alarm_text_lem x.alarms, e, state_name_lem s) refl

  -- When the status command ends well, what it printed behind the choice of the charger are eleven lines
  -- with readings that the charger answered to the reads of their registers, each in its own line with
  -- its unit. The state is named if its number is that of a known state, and is "unknown" with the number
  -- if it is not.
  pub cmd_status-IsRead :
      (r : Run Link)
      → (cmd_status env args floats formats r).0 ≡ done tt
      → (x : Readings floats.Float) × IsRead env.world floats x
        × ((cmd_status env args floats formats r).1.printed
            ≡ (r.printed ++ chosen_lines env args) ++ report formats x)
  unfolding cmd_status IsStatus
  cmd_status-IsRead r h =
      let shown = read_command env args (get_status env.world floats) (status_lines formats) r h in
      let (x, given, e) = (get_status-Returns env.world floats).returned _ _ shown.answered in
      (
        x,
        given,
        shown.printed
            ∙ ap (λ ls. (r.printed ++ chosen_lines env args) ++ ls)
                (ap (status_lines formats) e ∙ lines_lem x),
      )
