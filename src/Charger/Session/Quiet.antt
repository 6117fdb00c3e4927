-- ===== src/Charger/Session/Quiet.antt =====
-- Methods that hand over read frames alone.
use mathlib.Core.List.{append-nil, append_assoc}
use spinev_ble.Base.{
  ℕ, ◌≡◌, refl, sym, ap, ◌∙◌, true, false, List, [], ◌∷◌, ◌++◌, All, All-append, get_or, arith,
  ◌==◌,
}
use spinev_ble.Errors.{ok, raise, connection_error}
use spinev_ble.Const.Registers.{operation_value, write}
use spinev_ble.Models.{Bytes}
use spinev_ble.Protocol.Frames.{bytes_of, pack_uint, build_read}
use spinev_ble.Charger.Exchange.{exchange}
use spinev_ble.Charger.Session.Preserve.{Relation, Preserves, if_Between}
use spinev_ble.Charger.Session.{World, Session, M, request, require_transport, send}

-- The flag of a frame is not that of a write.
abbrev pub IsReadFrame : Bytes → Type 0
IsReadFrame frame = (get_or frame 3 0 == operation_value write) ≡ false

-- What the transport was handed in between are read frames.
abbrev pub HasOnlyRead : Session → Session → Type 0
HasOnlyRead s t = (more : List Bytes) × (t.handed ≡ s.handed ++ more) × All IsReadFrame more

pub HasOnlyRead-refl : (s : Session) → HasOnlyRead s s
HasOnlyRead-refl s = ([], sym (append-nil s.handed), tt)

pub HasOnlyRead-trans : (s t u : Session) → HasOnlyRead s t → HasOnlyRead t u → HasOnlyRead s u
HasOnlyRead-trans s t u (first, e, h) (second, d, k) = (
  first ++ second,
  d ∙ ap (λ (l : List Bytes). l ++ second) e ∙ append_assoc s.handed first second,
  All-append IsReadFrame first second h k,
)

abbrev pub quiet : Relation
quiet = record { Between = HasOnlyRead; same = HasOnlyRead-refl; next = HasOnlyRead-trans }

abbrev pub IsQuiet : {A : Type 0} → M A → Type 0
IsQuiet = Preserves quiet

module _ (w : World) where
  pub request-IsQuiet :
      (frame : Bytes) (register : ℕ) → IsReadFrame frame → IsQuiet (request w frame register)
  unfolding request
  request-IsQuiet frame register h = record {
    keeps = λ s.
        let (r, c) = exchange true (w.events s.handed frame) frame register s.client in
        if_Between quiet (w.connected s.handed) s
          (r, record { client = c; handed = s.handed ++ frame ∷ [] }) (raise connection_error, s)
          (frame ∷ [], refl, (h, tt)) (HasOnlyRead-refl s);
  }

  pub require_transport-IsQuiet : IsQuiet (require_transport w)
  unfolding require_transport
  require_transport-IsQuiet = record {
    keeps = λ s.
        if_Between quiet (w.connected s.handed) s (ok tt, s) (raise connection_error, s)
          (HasOnlyRead-refl s) (HasOnlyRead-refl s);
  }

  pub send-IsQuiet : (frame : Bytes) → IsReadFrame frame → IsQuiet (send w frame)
  unfolding send
  send-IsQuiet frame h = record { keeps = λ s. (frame ∷ [], refl, (h, tt)) }

pub build_read-IsReadFrame :
    (register parameter flag : ℕ) (frame : Bytes)
    → (flag == operation_value write) ≡ false
    → build_read register parameter flag ≡ ok frame
    → IsReadFrame frame
unfolding build_read bytes_of pack_uint
build_read-IsReadFrame register parameter flag frame h e = ground (arith, h, e)
