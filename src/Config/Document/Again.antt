-- ===== src/Config/Document/Again.antt =====
-- The configuration that is saved and loaded again.
use teg.Prelude.{◌≡◌, refl, sym, ◌∙◌, false, [], ◌∷◌}
use teg.Prelude.Int.{pos}
use teg.Config.Types.{PwmConfig, MainConfig}
use teg.Config.Secrets.{IsString, copy_config_string}
use teg.Config.Json.{find, JsonLibrary, get, get_bool, get_text}
use teg.Config.Sections.{
  asymmetric_induction_to_json, asymmetric_induction_from_json, feedback_to_json,
  feedback_from_json, fault_protection_to_json, fault_protection_from_json, current_limit_to_json,
  current_limit_from_json, influx_to_json, influx_from_json, mqtt_to_json, mqtt_from_json,
  meter_to_json, meter_from_json, pll_to_json, pll_from_json, mppt_to_json, mppt_from_json,
  thermal_to_json, thermal_from_json, power_mon_to_json, power_mon_from_json,
}
use teg.Config.Sections.Again.{
  StorableAsymmetricInduction, asymmetric_induction-again, StorableFeedback, feedback-again,
  StorableFaultProtection, fault_protection-again, StorableCurrentLimit, current_limit-again,
  StorableInflux, influx-again,
}
use teg.Config.Sections.Gauges.{
  StorableMqtt, mqtt-again, StorableMeter, meter-again, StorablePll, pll-again, StorableMppt,
  mppt-again, StorableThermal, thermal-again, StorablePowerMon, power_mon-again,
}
use Prim.Native.String.{String}
use teg.Config.Document.{
  full_to_json, one_sided_to_json, sm13_from_json, full_from_json, one_sided_from_json,
  module2_to_json, module2_from_json, module4_fields, module4_from_json, pwm_fields, pwm_to_json,
  pwm_from_json, config_fields, config_to_json, config_from_json,
}
use teg.Config.Document.Outputs.{StorableLeg, full-again, sm13-again, one_sided-again}
use teg.Config.Document.Engine.{StorableModule2, unclocked, module2-again}

-- Values that fit their fields and the reader's types, over a configuration whose channels without
-- a pin agree.
pub record IsStorable (c before : MainConfig) : Type 0 where
  pub asymmetric_induction : StorableAsymmetricInduction c.asymmetric_induction
  pub feedback : StorableFeedback c.feedback
  pub fault_protection : StorableFaultProtection c.fault_protection
  pub current_limit : StorableCurrentLimit c.current_limit
  pub influx : StorableInflux c.influx
  pub mqtt : StorableMqtt c.mqtt
  pub meter : StorableMeter c.meter
  pub pll : StorablePll c.pll
  pub mppt : StorableMppt c.mppt
  pub thermal : StorableThermal c.thermal
  pub power_mon : StorablePowerMon c.power_mon
  pub write_pin : IsString 16 c.security.write_pin
  pub sm13 : StorableLeg c.pwm.tm1.sm13
  pub tm2 : StorableModule2 c.pwm.tm2
  pub sm31 : StorableLeg c.pwm.tm3.sm31
  pub sm40 : StorableLeg c.pwm.tm4.sm40
  pub sm41 : StorableLeg c.pwm.tm4.sm41
  pub sm42 : StorableLeg c.pwm.tm4.sm42
  pub unsynchronised : c.pwm.sync_pwm ≡ false
  pub sm21_b : c.pwm.tm2.sm21.channel_b ≡ before.pwm.tm2.sm21.channel_b
  pub sm40_b : c.pwm.tm4.sm40.channel_b ≡ before.pwm.tm4.sm40.channel_b
  pub sm41_b : c.pwm.tm4.sm41.channel_b ≡ before.pwm.tm4.sm41.channel_b

abbrev pub unclocked_config : MainConfig → MainConfig
unclocked_config c = record c { pwm = record c.pwm { tm2 = unclocked c.pwm.tm2 } }

module _ (j : JsonLibrary) (c before : MainConfig) (h : IsStorable c before) where
  abbrev saved : j.Value
  saved = config_to_json j c

  abbrev pwm_again : PwmConfig
  pwm_again = pwm_from_json j (pwm_to_json j c.pwm) before.pwm

  pwm-same : pwm_again ≡ record c.pwm { tm2 = unclocked c.pwm.tm2 }
  unfolding pwm_from_json pwm_to_json module4_from_json
  pwm-same =
      let f = pwm_fields j c.pwm in
      let e_print : pwm_again.print_regs ≡ c.pwm.print_regs =
        get_bool j "PrintRegs" f c.pwm.print_regs false refl in
      let e_sync : pwm_again.sync_pwm ≡ c.pwm.sync_pwm =
        get j "SyncPwm" f (λ v. j.bool_or v false) j.nothing refl
        ∙ j.bool_or-nothing false
        ∙ sym h.unsynchronised in
      let e_verbose : pwm_again.verbose ≡ c.pwm.verbose =
        get_bool j "Verbose" f c.pwm.verbose false refl in
      let e_tm1 : pwm_again.tm1.sm13 ≡ c.pwm.tm1.sm13 =
        get j "Tm1" f (λ v. sm13_from_json j (j.member v "Sm13"))
          (j.object (("Sm13", full_to_json j c.pwm.tm1.sm13) ∷ [])) refl
        ∙ get j "Sm13" (("Sm13", full_to_json j c.pwm.tm1.sm13) ∷ []) (sm13_from_json j)
            (full_to_json j c.pwm.tm1.sm13) refl
        ∙ sm13-again j c.pwm.tm1.sm13 h.sm13 in
      let e_tm2 : pwm_again.tm2 ≡ unclocked c.pwm.tm2 =
        get j "Tm2" f (λ v. module2_from_json j v before.pwm.tm2) (module2_to_json j c.pwm.tm2) refl
        ∙ module2-again j c.pwm.tm2 before.pwm.tm2 h.tm2 h.sm21_b in
      let e_tm3 : pwm_again.tm3.sm31 ≡ c.pwm.tm3.sm31 =
        get j "Tm3" f (λ v. full_from_json j (j.member v "Sm31"))
          (j.object (("Sm31", full_to_json j c.pwm.tm3.sm31) ∷ [])) refl
        ∙ get j "Sm31" (("Sm31", full_to_json j c.pwm.tm3.sm31) ∷ []) (full_from_json j)
            (full_to_json j c.pwm.tm3.sm31) refl
        ∙ full-again j c.pwm.tm3.sm31 h.sm31 in
      let g = module4_fields j c.pwm.tm4 in
      let e_sm40 : pwm_again.tm4.sm40 ≡ c.pwm.tm4.sm40 =
        get j "Tm4" f (λ v. one_sided_from_json j (j.member v "Sm40") before.pwm.tm4.sm40)
          (j.object g) refl
        ∙ get j "Sm40" g (λ v. one_sided_from_json j v before.pwm.tm4.sm40)
            (one_sided_to_json j c.pwm.tm4.sm40) refl
        ∙ one_sided-again j c.pwm.tm4.sm40 h.sm40 before.pwm.tm4.sm40 h.sm40_b in
      let e_sm41 : pwm_again.tm4.sm41 ≡ c.pwm.tm4.sm41 =
        get j "Tm4" f (λ v. one_sided_from_json j (j.member v "Sm41") before.pwm.tm4.sm41)
          (j.object g) refl
        ∙ get j "Sm41" g (λ v. one_sided_from_json j v before.pwm.tm4.sm41)
            (one_sided_to_json j c.pwm.tm4.sm41) refl
        ∙ one_sided-again j c.pwm.tm4.sm41 h.sm41 before.pwm.tm4.sm41 h.sm41_b in
      let e_sm42 : pwm_again.tm4.sm42 ≡ c.pwm.tm4.sm42 =
        get j "Tm4" f (λ v. full_from_json j (j.member v "Sm42")) (j.object g) refl
        ∙ get j "Sm42" g (full_from_json j) (full_to_json j c.pwm.tm4.sm42) refl
        ∙ full-again j c.pwm.tm4.sm42 h.sm42 in
      cc

  -- A member of the object under "Config".
  config-member :
      {A : Type 0} (k : String) (f : j.Value → A) (v : j.Value)
      → find j.nothing k (config_fields j c) ≡ v
      → f (j.member (j.member saved "Config") k) ≡ f v
  unfolding config_to_json
  config-member k f v e =
      get j "Config"
        (("SchemaVersion", j.of_int (pos 1)) ∷ ("Config", j.object (config_fields j c)) ∷ [])
        (λ w. f (j.member w k)) (j.object (config_fields j c)) refl
      ∙ get j k (config_fields j c) f v e

  -- A configuration that is written and read again is the same, but for the frequencies of the cells,
  -- which are not written.
  pub config-again : config_from_json j saved before ≡ unclocked_config c
  unfolding config_from_json
  config-again =
      let read = config_from_json j saved before in
      let e_asymmetric_induction : read.asymmetric_induction ≡ c.asymmetric_induction =
        config-member "AsymmetricInduction" (asymmetric_induction_from_json j)
          (asymmetric_induction_to_json j c.asymmetric_induction) refl
        ∙ asymmetric_induction-again j c.asymmetric_induction h.asymmetric_induction in
      let e_pwm : read.pwm ≡ record c.pwm { tm2 = unclocked c.pwm.tm2 } =
        config-member "Pwm" (λ v. pwm_from_json j v before.pwm) (pwm_to_json j c.pwm) refl
        ∙ pwm-same in
      let e_feedback : read.feedback ≡ c.feedback =
        config-member "Feedback" (feedback_from_json j) (feedback_to_json j c.feedback) refl
        ∙ feedback-again j c.feedback h.feedback in
      let e_fault_protection : read.fault_protection ≡ c.fault_protection =
        config-member "FaultProtection" (fault_protection_from_json j)
          (fault_protection_to_json j c.fault_protection) refl
        ∙ fault_protection-again j c.fault_protection h.fault_protection in
      let e_current_limit : read.current_limit ≡ c.current_limit =
        config-member "CurrentLimit" (current_limit_from_json j)
          (current_limit_to_json j c.current_limit) refl
        ∙ current_limit-again j c.current_limit h.current_limit in
      let e_influx : read.influx ≡ c.influx =
        config-member "Influx" (influx_from_json j) (influx_to_json j c.influx) refl
        ∙ influx-again j c.influx h.influx in
      let e_mqtt : read.mqtt ≡ c.mqtt =
        config-member "Mqtt" (mqtt_from_json j) (mqtt_to_json j c.mqtt) refl
        ∙ mqtt-again j c.mqtt h.mqtt in
      let e_mtp : read.mtp.enabled ≡ c.mtp.enabled =
        config-member "Mtp" (λ v. j.bool_or (j.member v "Enabled") false)
          (j.object (("Enabled", j.of_bool c.mtp.enabled) ∷ [])) refl
        ∙ get_bool j "Enabled" (("Enabled", j.of_bool c.mtp.enabled) ∷ []) c.mtp.enabled false
            refl in
      let e_security : read.security.write_pin ≡ c.security.write_pin =
        config-member "Security" (λ v. copy_config_string 16 (j.text_or (j.member v "WritePin") []))
          (j.object (("WritePin", j.of_text c.security.write_pin) ∷ [])) refl
        ∙ get_text j "WritePin" (("WritePin", j.of_text c.security.write_pin) ∷ []) 16
            c.security.write_pin [] h.write_pin refl in
      let e_capture : read.capture.enabled ≡ c.capture.enabled =
        config-member "Capture" (λ v. j.bool_or (j.member v "Enabled") false)
          (j.object (("Enabled", j.of_bool c.capture.enabled) ∷ [])) refl
        ∙ get_bool j "Enabled" (("Enabled", j.of_bool c.capture.enabled) ∷ []) c.capture.enabled
            false refl in
      let e_meter : read.meter ≡ c.meter =
        config-member "Meter" (meter_from_json j) (meter_to_json j c.meter) refl
        ∙ meter-again j c.meter h.meter in
      let e_pll : read.pll ≡ c.pll =
        config-member "Pll" (pll_from_json j) (pll_to_json j c.pll) refl
        ∙ pll-again j c.pll h.pll in
      let e_mppt : read.mppt ≡ c.mppt =
        config-member "Mppt" (mppt_from_json j) (mppt_to_json j c.mppt) refl
        ∙ mppt-again j c.mppt h.mppt in
      let e_thermal : read.thermal ≡ c.thermal =
        config-member "Thermal" (thermal_from_json j) (thermal_to_json j c.thermal) refl
        ∙ thermal-again j c.thermal h.thermal in
      let e_power_mon : read.power_mon ≡ c.power_mon =
        config-member "PowerMon" (power_mon_from_json j) (power_mon_to_json j c.power_mon) refl
        ∙ power_mon-again j c.power_mon h.power_mon in
      cc
