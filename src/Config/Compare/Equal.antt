-- ===== src/Config/Compare/Equal.antt =====
-- The comparisons that decide equality.
use teg.Prelude.{◌≡◌, ◌↔◌, Bool, true, [], ◌∷◌, arith, text_equal}
use teg.Prelude.Int.{ℤ, pos, negsuc}
use teg.Config.Types.{
  Text, ChannelConfig, SubmoduleConfig, Module1Config, Module3Config, Module4Config,
  AsymmetricInductionConfig, FeedbackConfig, FaultProtectionConfig, CurrentLimitConfig, MqttConfig,
  PllConfig, MpptConfig, PowerMonConfig,
}
use teg.Config.Compare.{
  int_equal, bool_equal, channel_equal, submodule_equal, module1_equal, module3_equal,
  module4_equal, asymmetric_induction_equal, feedback_equal, fault_protection_equal,
  current_limit_equal, mqtt_equal, pll_equal, mppt_equal, power_mon_equal,
}

pub bool_equal_iff : (a b : Bool) → (bool_equal a b ≡ true) ↔ (a ≡ b)
unfolding bool_equal
bool_equal_iff a b = ground arith

pub int_equal_iff : (a b : ℤ) → (int_equal a b ≡ true) ↔ (a ≡ b)
unfolding int_equal
int_equal_iff (pos a) (pos b) = ground arith
int_equal_iff (pos a) (negsuc b) = ground arith
int_equal_iff (negsuc a) (pos b) = ground arith
int_equal_iff (negsuc a) (negsuc b) = ground arith

pub text_equal_iff : (a b : Text) → (text_equal a b ≡ true) ↔ (a ≡ b)
text_equal_iff [] [] = ground arith
text_equal_iff [] (y ∷ ys) = ground arith
text_equal_iff (x ∷ xs) [] = ground arith
text_equal_iff (x ∷ xs) (y ∷ ys) = ground (arith, text_equal_iff xs ys)

-- The comparison decides equality.
pub channel_equal_iff :
    (left right : ChannelConfig) → (channel_equal left right ≡ true) ↔ (left ≡ right)
unfolding channel_equal
channel_equal_iff left right = ground arith

-- The comparison decides equality.
pub submodule_equal_iff :
    (left right : SubmoduleConfig) → (submodule_equal left right ≡ true) ↔ (left ≡ right)
unfolding submodule_equal
submodule_equal_iff left right = ground (
  arith,
  channel_equal_iff left.channel_a right.channel_a,
  channel_equal_iff left.channel_b right.channel_b,
)

-- The comparison decides equality.
pub module1_equal_iff :
    (left right : Module1Config) → (module1_equal left right ≡ true) ↔ (left ≡ right)
unfolding module1_equal
module1_equal_iff left right = ground (arith, submodule_equal_iff left.sm13 right.sm13)

-- The comparison decides equality.
pub module3_equal_iff :
    (left right : Module3Config) → (module3_equal left right ≡ true) ↔ (left ≡ right)
unfolding module3_equal
module3_equal_iff left right = ground (arith, submodule_equal_iff left.sm31 right.sm31)

-- The comparison decides equality.
pub module4_equal_iff :
    (left right : Module4Config) → (module4_equal left right ≡ true) ↔ (left ≡ right)
unfolding module4_equal
module4_equal_iff left right = ground (
  arith,
  submodule_equal_iff left.sm40 right.sm40,
  submodule_equal_iff left.sm41 right.sm41,
  submodule_equal_iff left.sm42 right.sm42,
)

-- The comparison decides equality.
pub asymmetric_induction_equal_iff :
    (left right : AsymmetricInductionConfig)
    → (asymmetric_induction_equal left right ≡ true) ↔ (left ≡ right)
unfolding asymmetric_induction_equal
asymmetric_induction_equal_iff left right = ground (
  arith,
  bool_equal_iff left.is_enabled right.is_enabled,
  int_equal_iff left.pre_shift_nanos right.pre_shift_nanos,
  int_equal_iff left.post_shift_nanos right.post_shift_nanos,
)

-- The comparison decides equality.
pub feedback_equal_iff :
    (left right : FeedbackConfig) → (feedback_equal left right ≡ true) ↔ (left ≡ right)
unfolding feedback_equal
feedback_equal_iff left right = ground (arith, bool_equal_iff left.enabled right.enabled)

-- The comparison decides equality.
pub fault_protection_equal_iff :
    (left right : FaultProtectionConfig)
    → (fault_protection_equal left right ≡ true) ↔ (left ≡ right)
unfolding fault_protection_equal
fault_protection_equal_iff left right = ground (
  arith,
  bool_equal_iff left.enabled right.enabled,
  bool_equal_iff left.active_high right.active_high,
)

-- The comparison decides equality.
pub current_limit_equal_iff :
    (left right : CurrentLimitConfig) → (current_limit_equal left right ≡ true) ↔ (left ≡ right)
unfolding current_limit_equal
current_limit_equal_iff left right = ground (
  arith,
  bool_equal_iff left.enabled right.enabled,
  bool_equal_iff left.cycle_by_cycle right.cycle_by_cycle,
)

-- The comparison decides equality.
pub mqtt_equal_iff : (left right : MqttConfig) → (mqtt_equal left right ≡ true) ↔ (left ≡ right)
unfolding mqtt_equal
mqtt_equal_iff left right = ground (
  arith,
  bool_equal_iff left.enabled right.enabled,
  text_equal_iff left.host right.host,
  text_equal_iff left.username right.username,
  text_equal_iff left.password right.password,
  text_equal_iff left.base_topic right.base_topic,
  text_equal_iff left.discovery_prefix right.discovery_prefix,
  bool_equal_iff left.discovery_enabled right.discovery_enabled,
)

-- The comparison decides equality.
pub pll_equal_iff : (left right : PllConfig) → (pll_equal left right ≡ true) ↔ (left ≡ right)
unfolding pll_equal
pll_equal_iff left right = ground (
  arith,
  bool_equal_iff left.enabled right.enabled,
  int_equal_iff left.phase_offset_centi_deg right.phase_offset_centi_deg,
)

-- The comparison decides equality.
pub mppt_equal_iff : (left right : MpptConfig) → (mppt_equal left right ≡ true) ↔ (left ≡ right)
unfolding mppt_equal
mppt_equal_iff left right = ground (arith, bool_equal_iff left.enabled right.enabled)

-- The comparison decides equality.
pub power_mon_equal_iff :
    (left right : PowerMonConfig) → (power_mon_equal left right ≡ true) ↔ (left ≡ right)
unfolding power_mon_equal
power_mon_equal_iff left right = ground (arith, bool_equal_iff left.enabled right.enabled)
