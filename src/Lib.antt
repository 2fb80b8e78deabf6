-- ===== src/Lib.antt =====
-- The TEG inverter firmware (src/*.h and src/*.cpp): a Teensy 4.1 drives a power stage, records
-- waveforms and events, and takes settings, presets and firmware updates over the network. The
-- development models the parts of it that decide without touching hardware.
--
-- Parts and files:
-- - Prelude: tests, lists, options, machine words, signed integers and bit operations that the
--   parts share.
-- - Ota: the firmware update. Ota/Hex is `hexParseLine` of src/hex_parse.h, Ota/Hex/Text the lines it
--   reads; Ota/Crc is src/ota_crc.h; Ota/Ingest is the state machine of src/ota_ingest.h
--   (`otaFeedByte`, `otaHandleData`, `otaIngestFinish`), which calls the parser and the CRC, and
--   Ota/Ingest/Carried says what a body carries; Ota/Verify is src/ota_verify.h; Ota/Upload is the
--   session of src/ota.cpp (`otaIngestStream`, `otaRequestCommit`, `otaRequestAbort`), which feeds a
--   body to the state machine and then verifies the staged image; Ota/Commit is src/flash_ota.cpp
--   (`otaFlashCommit`), which copies the staged image over the running one; Ota/Loop is
--   `otaLoopTask` of src/ota.cpp, which calls it.
--   Ota/Flash holds the flash operations: the state machine's callbacks become a list of operations,
--   and `replay` applies them to a memory.
-- - Log: the event ring of src/event_log.h with its queries and time stamps.
-- - Stream: the two buffers of src/stream_ring.h that the loop fills and the interrupt plays.
-- - Preset: src/preset_name.h, the names that become files.
-- - Scope: the trigger of src/scope_math.h. Capture: the sample statistics of src/capture_math.h.
-- - Ntp: src/ntp_utils.h. Pair: src/pwm_pair.h. Acmp: src/acmp_math.h. Mppt: src/mppt_math.h.
-- - Pins: src/pin_ownership.h. Spwm: the integer parts of src/spwm_math.h.
-- - WritePin: src/write_pin.h. Wave: the integer parts of src/waveform_parse.h.
-- - Config: the settings. Config/Types and Config/Defaults are src/config_json.h; Config/Checks and
--   Config/Validate are `validateConfig` of src/config_serde.h, Config/Secrets its `preserveSecrets`
--   and `restoreSecrets`, Config/Sections and Config/Document its `configToJson` and
--   `configFromJson`; Config/Compare is src/config_compare.h; Config/Store is `saveConfiguration` and
--   `loadConfiguration` of src/config_json.cpp. ArduinoJson is the interface `JsonLibrary` of
--   Config/Json, the card is the interface `FileSystem` of Config/Store.
-- - Gzip: src/gzip_stream.h over the interface `Miniz` of the inflate core and its checksum.
-- - Modulation: the integer parts of src/modulation.h. Modulation/Pipeline is one carrier cycle,
--   `modulationCycleDuties`, from the phase to the duties. Timing: src/pwm_timing.h.
-- - Tests: the theorems at concrete inputs.
--
-- Correspondence: a C function keeps its name in lower case with underscores; a struct is a record,
-- an enum a data type, a function that changes its argument returns the new value. An n-bit integer
-- is a native number, reduced by `% 2 ^ n` where the source wraps. A C string is the list of its
-- characters before the NUL. A loop is a recursion on the data it walks or on the number of rounds
-- left: the erase loop of a record has a round for each sector from the first to the last, the CRC of
-- a flash range one for each 256 bytes begun, the copy one for each sector begun and the final wipe
-- one for each sector of the flash, so that each stops by its own test first. The feed of the gunzip
-- takes fuel: a round consumes input or hands output to the consumer, so that two rounds for a byte and
-- two for each piece that the consumer still accepts, and one more, are enough; a decompressor that
-- writes without end is stopped by a consumer that refuses, and by nothing else.
--
-- Not modelled: timing, interrupts and registers; the clock of the upload's stall timer, where a body
-- that ends early is a stall; the core's flash primitives, which are a parameter of Ota/Commit and
-- are `apply_op` (erase to 0xFF, program by `and`) in Ota/Upload and Ota/Loop; floating-point code, of which
-- `meterCalibrationValid` is a parameter of Config/Validate and the table of the reference one of
-- Modulation/Pipeline; the shape check of a JSON document
-- (`configShapeMatches`), which is part of the parameter `read` of Config/Store; paths too long for
-- their buffers there; HTTP and MQTT; the libraries under lib.
pub mod Prelude
pub mod Ota
pub mod Log
pub mod Stream
pub mod Preset
pub mod Scope
pub mod Ntp
pub mod Pair
pub mod Acmp
pub mod Capture
pub mod Mppt
pub mod WritePin
pub mod Wave
pub mod Pins
pub mod Spwm
pub mod Config
pub mod Gzip
pub mod Modulation
pub mod Timing
pub mod Tests
