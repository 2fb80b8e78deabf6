-- ===== src/Config/Secrets.antt =====
-- src/config_serde.h: the bounded copy of a string, and what becomes of the secrets in a document
-- that comes from the API (preserveSecrets) or from a file (restoreSecrets).
use teg.Prelude.{
  All-take, ℕ, zero, suc, ◌-◌, ◌≤◌, ◌<◌, ◌≡◌, refl, ap, ◌≢◌, ◌⊎◌, inl, inr, Bool, false, ◌&&◌, [],
  ◌∷◌, arith, ◌==◌, if◌then◌else◌, Bool-cases, length, take, All, text_equal,
}
use teg.Config.Types.{Text, InfluxConfig, MqttConfig, MainConfig}
use teg.Config.Compare.Equal.{text_equal_iff}

unfoldable pub before_nul : Text → Text
before_nul [] = []
before_nul (c ∷ cs) = if c == 0 then [] else c ∷ before_nul cs

-- `size` is the array's, with the terminator.
unfoldable pub copy_config_string : ℕ → Text → Text
copy_config_string size src = take (size - 1) (before_nul src)

abbrev pub token_size : ℕ
token_size = 96

abbrev pub write_pin_size : ℕ
write_pin_size = 16

abbrev pub password_size : ℕ
password_size = 64

unfoldable pub preserve_secrets : MainConfig → MainConfig → MainConfig
preserve_secrets c previous =
    let keep = λ (size : ℕ) (own old : Text).
      if text_equal own [] then copy_config_string size old else own in
    record c {
      influx = record c.influx { token = keep token_size c.influx.token previous.influx.token };
      security = record {
        write_pin = keep write_pin_size c.security.write_pin previous.security.write_pin;
      };
      mqtt = record c.mqtt { password = keep password_size c.mqtt.password previous.mqtt.password };
    }

unfoldable pub mqtt_endpoint_unchanged : MqttConfig → MqttConfig → Bool
mqtt_endpoint_unchanged c previous =
    text_equal c.host previous.host
    && c.port == previous.port
    && text_equal c.username previous.username

unfoldable pub influx_endpoint_unchanged : InfluxConfig → InfluxConfig → Bool
influx_endpoint_unchanged c previous =
    text_equal c.host previous.host
    && c.port == previous.port
    && text_equal c.org previous.org
    && text_equal c.bucket previous.bucket

unfoldable pub restore_mqtt : MqttConfig → MqttConfig → MqttConfig
restore_mqtt c previous =
    if mqtt_endpoint_unchanged c previous
    then record c { password = copy_config_string password_size previous.password }
    else record c { password = copy_config_string password_size []; enabled = false }

unfoldable pub restore_influx : InfluxConfig → InfluxConfig → InfluxConfig
restore_influx c previous =
    if influx_endpoint_unchanged c previous
    then record c { token = copy_config_string token_size previous.token }
    else record c { token = copy_config_string token_size []; interval_seconds = 0 }

unfoldable pub restore_secrets : MainConfig → MainConfig → MainConfig
restore_secrets c previous = record c {
  security = record { write_pin = copy_config_string write_pin_size previous.security.write_pin };
  mqtt = restore_mqtt c.mqtt previous.mqtt;
  influx = restore_influx c.influx previous.influx;
}

-- A string that an array of the given size can hold.
pub record IsString (size : ℕ) (t : Text) : Type 0 where
  pub fits : length t < size
  pub unbroken : All (λ c. c ≢ 0) t

before_nul-same : (t : Text) → All (λ c. c ≢ 0) t → before_nul t ≡ t
unfolding before_nul
before_nul-same [] h = refl
before_nul-same (c ∷ cs) h = ground (arith, h.0, before_nul-same cs h.1)

take-all : (n : ℕ) (t : Text) → length t ≤ n → take n t ≡ t
take-all zero [] h = refl
take-all zero (c ∷ cs) h = absurd (omega arith)
take-all (suc n) [] h = refl
take-all (suc n) (c ∷ cs) h = ap (λ r. c ∷ r) (take-all n cs (omega arith))

pub copy-same : (size : ℕ) (t : Text) → IsString size t → copy_config_string size t ≡ t
unfolding copy_config_string
copy-same size t h =
    rw (before_nul-same t h.unbroken) (take-all (size - 1) t (omega (arith, h.fits)))

before_nul-unbroken : (t : Text) → All (λ c. c ≢ 0) (before_nul t)
unfolding before_nul
before_nul-unbroken [] = tt
before_nul-unbroken (c ∷ cs) = elim (Bool-cases (c == 0)) [
  | inl e ↦ rw e tt
  | inr e ↦ rw e ((ground arith, before_nul-unbroken cs))
]

length-take_le : (n : ℕ) (t : Text) → length (take n t) ≤ n
length-take_le zero t = omega arith
length-take_le (suc n) [] = omega arith
length-take_le (suc n) (c ∷ cs) = omega (arith, length-take_le n cs)

-- A copy always fits the array, whatever is copied.
pub copy-IsString : (size : ℕ) (t : Text) → 0 < size → IsString size (copy_config_string size t)
unfolding copy_config_string
copy-IsString size t h = record {
  fits = omega (arith, length-take_le (size - 1) (before_nul t));
  unbroken = All-take (λ (c : ℕ). c ≢ 0) (size - 1) (before_nul t) (before_nul-unbroken t);
}

take_nothing : (n : ℕ) → take n (let none_left : Text = [] in none_left) ≡ []
take_nothing zero = refl
take_nothing (suc n) = refl

copy_empty : (size : ℕ) → copy_config_string size [] ≡ []
unfolding copy_config_string before_nul
copy_empty size = take_nothing (size - 1)

-- Where the device's secrets are after a document of a file was taken over.
pub record IsRestored (c previous result : MainConfig) : Type 0 where
  pub pin : result.security.write_pin ≡ previous.security.write_pin
  pub mqtt :
      ((result.mqtt.password ≡ previous.mqtt.password)
        × (result.mqtt.host ≡ previous.mqtt.host)
        × (result.mqtt.port ≡ previous.mqtt.port)
        × (result.mqtt.username ≡ previous.mqtt.username))
      ⊎ ((result.mqtt.password ≡ []) × (result.mqtt.enabled ≡ false))
  pub influx :
      ((result.influx.token ≡ previous.influx.token)
        × (result.influx.host ≡ previous.influx.host)
        × (result.influx.port ≡ previous.influx.port)
        × (result.influx.org ≡ previous.influx.org)
        × (result.influx.bucket ≡ previous.influx.bucket))
      ⊎ ((result.influx.token ≡ []) × (result.influx.interval_seconds ≡ 0))
  pub own_password :
      c.mqtt.host ≡ previous.mqtt.host
      → c.mqtt.port ≡ previous.mqtt.port
      → c.mqtt.username ≡ previous.mqtt.username
      → (result.mqtt.password ≡ previous.mqtt.password) × (result.mqtt.enabled ≡ c.mqtt.enabled)
  pub own_token :
      c.influx.host ≡ previous.influx.host
      → c.influx.port ≡ previous.influx.port
      → c.influx.org ≡ previous.influx.org
      → c.influx.bucket ≡ previous.influx.bucket
      → (result.influx.token ≡ previous.influx.token)
        × (result.influx.interval_seconds ≡ c.influx.interval_seconds)
  pub endpoints :
      (result.mqtt.host ≡ c.mqtt.host)
      × (result.mqtt.port ≡ c.mqtt.port)
      × (result.mqtt.username ≡ c.mqtt.username)
      × (result.influx.host ≡ c.influx.host)
      × (result.influx.port ≡ c.influx.port)
      × (result.influx.org ≡ c.influx.org)
      × (result.influx.bucket ≡ c.influx.bucket)
  pub outputs :
      (result.pwm ≡ c.pwm)
      × (result.fault_protection ≡ c.fault_protection)
      × (result.current_limit ≡ c.current_limit)

-- The strings of the running configuration fit their arrays.
pub record HasSecrets (c : MainConfig) : Type 0 where
  pub pin : IsString write_pin_size c.security.write_pin
  pub password : IsString password_size c.mqtt.password
  pub token : IsString token_size c.influx.token

module _ (c previous : MainConfig) (h : HasSecrets previous) where
  -- A document of a file never changes the access PIN, and takes over no password or token that it
  -- carries. Where the document names the endpoint of the device (host, port and user of the broker;
  -- host, port, organisation and bucket of the database), the device's own password or token stays
  -- and the connection is as the document has it; elsewhere it is cleared and the connection is off.
  -- The endpoints and the output settings are the document's.
  pub restore_secrets-IsRestored : IsRestored c previous (restore_secrets c previous)
  unfolding restore_secrets restore_mqtt restore_influx mqtt_endpoint_unchanged
      influx_endpoint_unchanged
  restore_secrets-IsRestored = record {
    pin = copy-same write_pin_size previous.security.write_pin h.pin;
    mqtt = ground (
      arith,
      copy-same password_size previous.mqtt.password h.password,
      copy_empty password_size,
      text_equal_iff c.mqtt.host previous.mqtt.host,
      text_equal_iff c.mqtt.username previous.mqtt.username,
    );
    influx = ground (
      arith,
      copy-same token_size previous.influx.token h.token,
      copy_empty token_size,
      text_equal_iff c.influx.host previous.influx.host,
      text_equal_iff c.influx.org previous.influx.org,
      text_equal_iff c.influx.bucket previous.influx.bucket,
    );
    own_password = λ host port username. ground (
      arith,
      copy-same password_size previous.mqtt.password h.password,
      text_equal_iff c.mqtt.host previous.mqtt.host,
      text_equal_iff c.mqtt.username previous.mqtt.username,
    );
    own_token = λ host port org bucket. ground (
      arith,
      copy-same token_size previous.influx.token h.token,
      text_equal_iff c.influx.host previous.influx.host,
      text_equal_iff c.influx.org previous.influx.org,
      text_equal_iff c.influx.bucket previous.influx.bucket,
    );
    endpoints = ground arith;
    outputs = (refl, refl, refl);
  }
