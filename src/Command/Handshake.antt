-- ===== src/Command/Handshake.antt =====
-- `_on_event` of command.py, with the handshake message of models.py.
use brewblox_devcon_spark.Base.{
  ◌<◌, ◌≡◌, ◌∙◌, length, take, refl, Bool, true, false, ◌&&◌, List, [], ◌∷◌, ◌++◌, Option, none,
  some, Text, arith, All, ◌==◌, if◌then◌else◌,
}
use brewblox_devcon_spark.Base.Exn.{Result, ok, err, value_error, ◌>>=◌}
use brewblox_devcon_spark.Base.Codes.{codes}
use brewblox_devcon_spark.Base.Str.{split, contains}
use brewblox_devcon_spark.Models.{
  ControllerDescription, firmware_description, truncate_version, device_description, lower,
}
use brewblox_devcon_spark.Models.Config.{ServiceConfig}
use brewblox_devcon_spark.Models.Reset.{upper, name_of, reset_reasons, reset_data}
use brewblox_devcon_spark.StateMachine.{StateMachine, set_acknowledged}

abbrev pub welcome_prefix : Text
welcome_prefix = codes "!BREWBLOX"

pub record HandshakeMessage : Type 0 where
  pub name : Text
  pub firmware_version : Text
  pub proto_version : Text
  pub firmware_date : Text
  pub proto_date : Text
  pub system_version : Text
  pub platform : Text
  pub reset_reason_hex : Text
  pub reset_data_hex : Text
  pub device_id : Text
  pub reset_reason : Text
  pub reset_cause : Text

-- An unknown value is not specified.
data_name : Option Text → Text
data_name none = codes "NOT_SPECIFIED"
data_name (some name) = name

-- `HandshakeMessage(**dict(zip(HANDSHAKE_KEYS, values)))` behind the check of its keys, with the
-- reason and the data of the reset; an unknown reason is a ValueError.
parse_reset_enums : Option Text → HandshakeMessage → Result HandshakeMessage
unfolding data_name name_of upper
parse_reset_enums none h = err value_error
parse_reset_enums (some reason) h = ok (record h {
  reset_reason = reason;
  reset_cause = data_name (name_of reset_data (upper h.reset_data_hex));
})

-- Each key has a value, and further values are dropped.
pub handshake_message : List Text → Result HandshakeMessage
unfolding parse_reset_enums name_of upper
handshake_message
      (name ∷ fw ∷ proto ∷ fw_date ∷ proto_date ∷ system ∷ platform ∷ reason ∷ cause ∷ device
        ∷ rest) =
    parse_reset_enums (name_of reset_reasons (upper reason)) (record {
      name = name;
      firmware_version = fw;
      proto_version = proto;
      firmware_date = fw_date;
      proto_date = proto_date;
      system_version = system;
      platform = platform;
      reset_reason_hex = reason;
      reset_data_hex = cause;
      device_id = device;
      reset_reason = [];
      reset_cause = [];
    })
handshake_message _ = err value_error

pub controller_description : HandshakeMessage → ControllerDescription
unfolding firmware_description device_description
controller_description h = record {
  system_version = h.system_version;
  platform = h.platform;
  reset_reason = h.reset_reason;
  firmware = firmware_description h.firmware_version h.proto_version h.firmware_date h.proto_date;
  device = device_description h.device_id;
}

-- `msg.startswith(prefix)`
unfoldable pub starts_with : Text → Text → Bool
starts_with [] s = true
starts_with (c ∷ p) [] = false
starts_with (c ∷ p) (d ∷ s) = c == d && starts_with p s

-- `msg.removeprefix('!')`
remove_mark : Text → Text
remove_mark [] = []
remove_mark (c ∷ s) = if c == b'!' then s else c ∷ s

pub on_event : ServiceConfig → Text → StateMachine → Result StateMachine
unfolding starts_with remove_mark split handshake_message controller_description
on_event config msg s =
    if starts_with welcome_prefix msg
    then handshake_message (split b',' (remove_mark msg))
      >>= (λ h. ok (set_acknowledged config (controller_description h) s))
    else ok s

-- The values as the controller sends them.
abbrev pub joined : Text → List Text → Text
joined v [] = v
joined v (w ∷ ws) = v ++ b',' ∷ joined w ws

pub split-one : (v : Text) → contains b',' v ≡ false → split b',' v ≡ v ∷ []
unfolding split contains
split-one [] h = refl
split-one (c ∷ v) h =
    let (away, later) : ((c == b',') ≡ false) × (contains b',' v ≡ false) =
      (ground arith, ground arith) in
    rw (away, split-one v later) refl

split-append :
    (v s : Text) → contains b',' v ≡ false → split b',' (v ++ b',' ∷ s) ≡ v ∷ split b',' s
unfolding split contains
split-append [] s h = refl
split-append (c ∷ v) s h =
    let (away, later) : ((c == b',') ≡ false) × (contains b',' v ≡ false) =
      (ground arith, ground arith) in
    rw (away, split-append v s later) refl

split-joined :
    (v : Text) (ws : List Text)
    → contains b',' v ≡ false
    → All (λ w. contains b',' w ≡ false) ws
    → split b',' (joined v ws) ≡ v ∷ ws
split-joined v [] h a = split-one v h
split-joined v (w ∷ ws) h a = rw (split-append v (joined w ws) h, split-joined w ws a.0 a.1)

starts_with-append : (p v w : Text) → starts_with p v ≡ true → starts_with p (v ++ w) ≡ true
unfolding starts_with
starts_with-append [] v w h = refl
starts_with-append (c ∷ p) [] w h = cc
starts_with-append (c ∷ p) (d ∷ v) w h = ground (arith, starts_with-append p v w)

starts_with-joined :
    (p v : Text) (ws : List Text) → starts_with p v ≡ true → starts_with p (joined v ws) ≡ true
starts_with-joined p v [] h = h
starts_with-joined p v (w ∷ ws) h = starts_with-append p v (b',' ∷ joined w ws) h

-- A message that is made of values without commas, the first of which begins with the name of the
-- firmware, is read as those values.
pub on_event-joined :
    (config : ServiceConfig) (v : Text) (ws : List Text) (s : StateMachine)
    → starts_with (codes "BREWBLOX") v ≡ true
    → All (λ w. contains b',' w ≡ false) (v ∷ ws)
    → on_event config (b'!' ∷ joined v ws) s ≡ (
        handshake_message (v ∷ ws)
        >>= (λ h. ok (set_acknowledged config (controller_description h) s)))
unfolding on_event starts_with remove_mark
on_event-joined config v ws s p a =
    rw (starts_with-joined (codes "BREWBLOX") v ws p, split-joined v ws a.0 a.1) refl

handshake_message_short :
    (values : List Text) → length values < 10 → handshake_message values ≡ err value_error
unfolding handshake_message
handshake_message_short [] l = refl
handshake_message_short (a ∷ []) l = refl
handshake_message_short (a ∷ b ∷ []) l = refl
handshake_message_short (a ∷ b ∷ c ∷ []) l = refl
handshake_message_short (a ∷ b ∷ c ∷ d ∷ []) l = refl
handshake_message_short (a ∷ b ∷ c ∷ d ∷ e ∷ []) l = refl
handshake_message_short (a ∷ b ∷ c ∷ d ∷ e ∷ f ∷ []) l = refl
handshake_message_short (a ∷ b ∷ c ∷ d ∷ e ∷ f ∷ g ∷ []) l = refl
handshake_message_short (a ∷ b ∷ c ∷ d ∷ e ∷ f ∷ g ∷ h ∷ []) l = refl
handshake_message_short (a ∷ b ∷ c ∷ d ∷ e ∷ f ∷ g ∷ h ∷ i ∷ []) l = refl
handshake_message_short (a ∷ b ∷ c ∷ d ∷ e ∷ f ∷ g ∷ h ∷ i ∷ j ∷ rest) l = absurd (omega (arith, l))

-- A welcome message of ten values without commas, or more, with a known reset reason acknowledges the
-- controller that the values describe: versions cut to 8 characters, the device ID in lower case.
pub on_event-handshake :
    (config : ServiceConfig) (s : StateMachine)
    (name fw proto fw_date proto_date system platform reason cause device : Text) (rest : List Text)
    (reset_reason : Text)
    → starts_with (codes "BREWBLOX") name ≡ true
    → All
        (λ w. contains b',' w ≡ false)
        (name ∷ fw ∷ proto ∷ fw_date ∷ proto_date ∷ system ∷ platform ∷ reason ∷ cause ∷ device
          ∷ rest)
    → name_of reset_reasons (upper reason) ≡ some reset_reason
    → on_event config
        (b'!'
          ∷ joined name (
              fw ∷ proto ∷ fw_date ∷ proto_date ∷ system ∷ platform ∷ reason ∷ cause ∷ device
              ∷ rest))
        s
      ≡ ok (
          set_acknowledged config
            (record {
              system_version = system;
              platform = platform;
              reset_reason = reset_reason;
              firmware = record {
                firmware_version = take 8 fw;
                proto_version = take 8 proto;
                firmware_date = fw_date;
                proto_date = proto_date;
              };
              device = record { device_id = lower device };
            })
            s)
unfolding handshake_message parse_reset_enums controller_description firmware_description
    truncate_version device_description
on_event-handshake config s name fw proto fw_date proto_date system platform reason cause device
      rest reset_reason p a r =
    on_event-joined config name
      (fw ∷ proto ∷ fw_date ∷ proto_date ∷ system ∷ platform ∷ reason ∷ cause ∷ device ∷ rest) s p a
    ∙ rw r refl

-- A welcome message of fewer than ten values without commas raises ValueError.
pub on_event-short :
    (config : ServiceConfig) (v : Text) (ws : List Text) (s : StateMachine)
    → starts_with (codes "BREWBLOX") v ≡ true
    → All (λ w. contains b',' w ≡ false) (v ∷ ws)
    → length (v ∷ ws) < 10
    → on_event config (b'!' ∷ joined v ws) s ≡ err value_error
on_event-short config v ws s p a l =
    on_event-joined config v ws s p a ∙ rw (handshake_message_short (v ∷ ws) l) refl
