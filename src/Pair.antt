-- ===== src/Pair.antt =====
-- src/pwm_pair.h: what a submodule's two outputs may be and the dead time between them. Modes and
-- submodules are bytes, as in the source.
pub mod PairMode
pub mod Submodule
pub mod DeadTime
pub mod Mode
use teg.Prelude.{ℕ, ◌*◌, ◌/◌, Bool, not, ◌&&◌, ◌||◌, ltb, leb, ◌==◌, if◌then◌else◌}
use teg.Prelude.Words.{u16, u32}
use PairMode.{independent, half_bridge, differential, count}
use Submodule.{sm21, sm40, sm41, sm42}

abbrev pub max_dead_time_cycles : ℕ
max_dead_time_cycles = 2047

abbrev pub min_half_bridge_dead_time_ns : ℕ
min_half_bridge_dead_time_ns = 150

abbrev pub pwm_bus_clock_hz : ℕ
pwm_bus_clock_hz = 150000000

-- The product of two 32-bit values fits the source's 64 bits.
unfoldable pub pair_dead_time_cycles : ℕ → ℕ → ℕ
pair_dead_time_cycles ns bus_hz =
    if ltb max_dead_time_cycles (ns * bus_hz / 1000000000)
    then max_dead_time_cycles
    else u16 (ns * bus_hz / 1000000000)

unfoldable pub pair_max_dead_time_ns : ℕ → ℕ
pair_max_dead_time_ns bus_hz = u32 (max_dead_time_cycles * 1000000000 / bus_hz)

unfoldable pub pair_is_complementary : ℕ → Bool
pair_is_complementary mode = mode == half_bridge || mode == differential

unfoldable pub pair_uses_dead_time : ℕ → Bool
pair_uses_dead_time mode = mode == half_bridge

unfoldable pub pair_dead_time_ns : ℕ → ℕ → ℕ
pair_dead_time_ns mode configured_ns =
    let longest = pair_max_dead_time_ns pwm_bus_clock_hz in
    if not (pair_uses_dead_time mode)
    then 0
    else if ltb configured_ns min_half_bridge_dead_time_ns
    then min_half_bridge_dead_time_ns
    else if ltb longest configured_ns
    then longest
    else configured_ns

unfoldable pub pair_has_channel_b : ℕ → Bool
pair_has_channel_b submodule = not (submodule == sm21 || submodule == sm40 || submodule == sm41)

unfoldable pub pair_allows_complementary : ℕ → Bool
pair_allows_complementary submodule = pair_has_channel_b submodule && not (submodule == sm42)

unfoldable pub pair_mode_sanitised : ℕ → ℕ → ℕ
pair_mode_sanitised requested submodule =
    if leb count requested
    then independent
    else if pair_is_complementary requested && not (pair_allows_complementary submodule)
    then independent
    else requested

unfoldable pub pair_mode_valid : ℕ → ℕ → Bool
pair_mode_valid requested submodule = pair_mode_sanitised requested submodule == requested

unfoldable pub pair_mode_sanitised_for_scheme : ℕ → ℕ → Bool → ℕ
pair_mode_sanitised_for_scheme requested submodule scheme_needs_inversion =
    let sanitised = pair_mode_sanitised requested submodule in
    if scheme_needs_inversion && pair_is_complementary sanitised then independent else sanitised
