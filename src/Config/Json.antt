-- ===== src/Config/Json.antt =====
-- What the code relies on of ArduinoJson, which is not read: a document is a value of any type.
use teg.Prelude.{ℕ, ◌<◌, ◌≡◌, ap, ◌∙◌, Bool, List, [], ◌∷◌, arith, if◌then◌else◌}
use text.Mathlib.Text
use Prim.Native.String.{String}
use teg.Prelude.Int.{pos, negsuc, ℤ, to_u8, to_u16, to_u32, to_i8, to_i16}
use teg.Config.Types.{Text}
use teg.Config.Secrets.{IsString, copy_config_string, copy-same}

abbrev pub IsI32 : ℤ → Type 0
IsI32 (pos n) = n < 2147483648
IsI32 (negsuc n) = n < 2147483648

abbrev pub IsI16 : ℤ → Type 0
IsI16 (pos n) = n < 32768
IsI16 (negsuc n) = n < 32768

abbrev pub IsI8 : ℤ → Type 0
IsI8 (pos n) = n < 128
IsI8 (negsuc n) = n < 128

-- The member of a name in a list of members, `nothing` where there is none.
abbrev pub find {ℓ} : {V : Type ℓ} → V → String → List (String × V) → V
find nothing k [] = nothing
find nothing k ((name, v) ∷ fields) = if Text.◌==◌ name k then v else find nothing k fields

-- `object` is the object to which members were assigned in turn, `member` the operator [], and
-- `bool_or` and the like are the operator |, which yields the value where it has the type of the
-- fallback.
pub record JsonLibrary : Type 1 where
  pub Value : Type 0
  pub nothing : Value
  pub object : List (String × Value) → Value
  pub member : Value → String → Value
  pub of_bool : Bool → Value
  pub of_int : ℤ → Value
  pub of_text : Text → Value
  pub bool_or : Value → Bool → Bool
  pub int_or : Value → ℤ → ℤ
  pub u16_or : Value → ℕ → ℕ
  pub u32_or : Value → ℕ → ℕ
  pub mode_or : Value → ℕ → ℕ
  pub text_or : Value → Text → Text
  pub member-object :
      (fields : List (String × Value)) (k : String)
      → member (object fields) k ≡ find nothing k fields
  pub bool_or-of_bool : (b d : Bool) → bool_or (of_bool b) d ≡ b
  pub int_or-of_int : (z d : ℤ) → IsI32 z → int_or (of_int z) d ≡ z
  pub int_or-nothing : (d : ℤ) → int_or nothing d ≡ d
  pub bool_or-nothing : (d : Bool) → bool_or nothing d ≡ d
  pub u16_or-of_int : (n d : ℕ) → n < 65536 → u16_or (of_int (pos n)) d ≡ n
  pub u32_or-of_int : (n d : ℕ) → n < 4294967296 → u32_or (of_int (pos n)) d ≡ n
  pub u32_or-nothing : (d : ℕ) → u32_or nothing d ≡ d
  pub mode_or-of_int : (n d : ℕ) → n < 3 → mode_or (of_int (pos n)) d ≡ n
  pub text_or-of_text : (t d : Text) → text_or (of_text t) d ≡ t

abbrev pub Object : JsonLibrary → Type 0
Object j = List (String × j.Value)

module _ (j : JsonLibrary) (k : String) (fields : Object j) where
  -- A member that was assigned a value, as each kind of field is read.
  pub get :
      {A : Type 0} (f : j.Value → A) (v : j.Value)
      → find j.nothing k fields ≡ v
      → f (j.member (j.object fields) k) ≡ f v
  get f v h = ap f (j.member-object fields k ∙ h)

  pub get_bool :
      (b d : Bool)
      → find j.nothing k fields ≡ j.of_bool b
      → j.bool_or (j.member (j.object fields) k) d ≡ b
  get_bool b d h = get (λ v. j.bool_or v d) (j.of_bool b) h ∙ j.bool_or-of_bool b d

  pub get_i32 :
      (z d : ℤ)
      → IsI32 z
      → find j.nothing k fields ≡ j.of_int z
      → j.int_or (j.member (j.object fields) k) d ≡ z
  get_i32 z d r h = get (λ v. j.int_or v d) (j.of_int z) h ∙ j.int_or-of_int z d r

  pub get_u8 :
      (n : ℕ) (d : ℤ)
      → n < 256
      → find j.nothing k fields ≡ j.of_int (pos n)
      → to_u8 (j.int_or (j.member (j.object fields) k) d) ≡ n
  get_u8 n d r h = ap to_u8 (get_i32 (pos n) d (omega arith) h) ∙ omega arith

  pub get_u16 :
      (n : ℕ) (d : ℤ)
      → n < 65536
      → find j.nothing k fields ≡ j.of_int (pos n)
      → to_u16 (j.int_or (j.member (j.object fields) k) d) ≡ n
  get_u16 n d r h = ap to_u16 (get_i32 (pos n) d (omega arith) h) ∙ omega arith

  pub get_u32 :
      (n : ℕ) (d : ℤ)
      → n < 2147483648
      → find j.nothing k fields ≡ j.of_int (pos n)
      → to_u32 (j.int_or (j.member (j.object fields) k) d) ≡ n
  get_u32 n d r h = ap to_u32 (get_i32 (pos n) d r h) ∙ omega arith

  pub get_missing_u8 :
      (d : ℤ)
      → find j.nothing k fields ≡ j.nothing
      → to_u8 (j.int_or (j.member (j.object fields) k) d) ≡ to_u8 d
  get_missing_u8 d h = ap to_u8 (get (λ v. j.int_or v d) j.nothing h ∙ j.int_or-nothing d)

  pub get_text :
      (size : ℕ) (t d : Text)
      → IsString size t
      → find j.nothing k fields ≡ j.of_text t
      → copy_config_string size (j.text_or (j.member (j.object fields) k) d) ≡ t
  get_text size t d r h =
      ap (copy_config_string size)
        (get (λ v. j.text_or v d) (j.of_text t) h ∙ j.text_or-of_text t d)
      ∙ copy-same size t r

  pub get_i16 :
      (z d : ℤ)
      → IsI16 z
      → find j.nothing k fields ≡ j.of_int z
      → to_i16 (j.int_or (j.member (j.object fields) k) d) ≡ z
  get_i16 (pos n) d r h = ap to_i16 (get_i32 (pos n) d (omega arith) h) ∙ ground arith
  get_i16 (negsuc n) d r h = ap to_i16 (get_i32 (negsuc n) d (omega arith) h) ∙ ground arith

  pub get_i8 :
      (z d : ℤ)
      → IsI8 z
      → find j.nothing k fields ≡ j.of_int z
      → to_i8 (j.int_or (j.member (j.object fields) k) d) ≡ z
  get_i8 (pos n) d r h = ap to_i8 (get_i32 (pos n) d (omega arith) h) ∙ ground arith
  get_i8 (negsuc n) d r h = ap to_i8 (get_i32 (negsuc n) d (omega arith) h) ∙ ground arith
