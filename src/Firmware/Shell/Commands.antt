-- ===== src/Firmware/Shell/Commands.antt =====
-- The commands of the shell, `ProcessCommand` of src/esp8266/shell/shell.c. What they only print is left out.
use dpd_chat_fabric.Prelude.{
  ℕ, zero, suc, ◌+◌, ◌%◌, Bool, true, false, ◌&&◌, List, [], ◌∷◌, length, drop, get_or, ◌==◌,
  if◌then◌else◌, ◌++◌, Outcome, ok, ◌>>=◌,
}
use dpd_chat_fabric.Types.Structs.{Config}
use dpd_chat_fabric.PairFile.{cf_pair_init}
use dpd_chat_fabric.Firmware.Outlets.{Output, gpio16_output_set, gpio_output_set}
use dpd_chat_fabric.Firmware.Globals.{
  mode_booting, mode_sta_unpaired, Globals, call, system_restart, rboot_ota_start, config_write,
}
use dpd_chat_fabric.Firmware.Shell.{c_string, cmd_length, cut_words, entered_lines, new_shell}

-- `atoi` of the C library, with its `int` as a bit pattern, the bytes that `arc4random_buf` delivers, and
-- the configuration that `cfConfigRead` reads from the flash.
pub record Devices : Type 0 where
  pub atoi : List ℕ → ℕ
  pub random : List ℕ
  pub config_read : Config → Config

-- Where the loop of `ProcessCommand` puts `cmd[c]` from character i on: behind each space.
unfoldable pub word_starts : ℕ → ℕ → ℕ → List ℕ → List ℕ
word_starts i c zero str = []
word_starts i c (suc n) [] = []
word_starts i c (suc n) (x ∷ xs) =
    let space = x == b' ' in
    let c' = if space then c + 1 else c in
    let later = if c' == cmd_length then [] else word_starts (i + 1) c' n xs in
    if space then (i + 1) ∷ later else later

-- The string at `cmd[k]`, which is the whole line where there is no such word.
unfoldable pub command_word : List ℕ → ℕ → List ℕ
unfolding cut_words word_starts
command_word str zero = c_string (cut_words 1 (length (c_string str)) str)
command_word str (suc k) =
    let s = length (c_string str) in
    c_string (drop (get_or (word_starts 0 1 s str) k 0) (cut_words 1 s str))

pub data ShellCommand : Type 0 where
  help gpio pwm sxinit sx config_command ota restart ip_command info_command unpair init_command
        debugon debugoff saveconfig readconfig raw0 raw1 raw2 raw3 unknown_command :
      ShellCommand

-- Whether two strings are equal, as `strcmp` says.
abbrev pub same_string : List ℕ → List ℕ → Bool
same_string [] [] = true
same_string [] (y ∷ ys) = false
same_string (x ∷ xs) [] = false
same_string (x ∷ xs) (y ∷ ys) = (x == y) && same_string xs ys

abbrev pub command_names : List (List ℕ × ShellCommand)
command_names =
    (b'h' ∷ b'e' ∷ b'l' ∷ b'p' ∷ [], help)
    ∷ (b'g' ∷ b'p' ∷ b'i' ∷ b'o' ∷ [], gpio)
    ∷ (b'p' ∷ b'w' ∷ b'm' ∷ [], pwm)
    ∷ (b's' ∷ b'x' ∷ b'i' ∷ b'n' ∷ b'i' ∷ b't' ∷ [], sxinit)
    ∷ (b's' ∷ b'x' ∷ [], sx)
    ∷ (b'c' ∷ b'o' ∷ b'n' ∷ b'f' ∷ b'i' ∷ b'g' ∷ [], config_command)
    ∷ (b'o' ∷ b't' ∷ b'a' ∷ [], ota)
    ∷ (b'r' ∷ b'e' ∷ b's' ∷ b't' ∷ b'a' ∷ b'r' ∷ b't' ∷ [], restart)
    ∷ (b'i' ∷ b'p' ∷ [], ip_command)
    ∷ (b'i' ∷ b'n' ∷ b'f' ∷ b'o' ∷ [], info_command)
    ∷ (b'u' ∷ b'n' ∷ b'p' ∷ b'a' ∷ b'i' ∷ b'r' ∷ [], unpair)
    ∷ (b'i' ∷ b'n' ∷ b'i' ∷ b't' ∷ [], init_command)
    ∷ (b'd' ∷ b'e' ∷ b'b' ∷ b'u' ∷ b'g' ∷ b'o' ∷ b'n' ∷ [], debugon)
    ∷ (b'd' ∷ b'e' ∷ b'b' ∷ b'u' ∷ b'g' ∷ b'o' ∷ b'f' ∷ b'f' ∷ [], debugoff)
    ∷ (b's' ∷ b'a' ∷ b'v' ∷ b'e' ∷ b'c' ∷ b'o' ∷ b'n' ∷ b'f' ∷ b'i' ∷ b'g' ∷ [], saveconfig)
    ∷ (b'r' ∷ b'e' ∷ b'a' ∷ b'd' ∷ b'c' ∷ b'o' ∷ b'n' ∷ b'f' ∷ b'i' ∷ b'g' ∷ [], readconfig)
    ∷ (b'r' ∷ b'a' ∷ b'w' ∷ b'0' ∷ [], raw0)
    ∷ (b'r' ∷ b'a' ∷ b'w' ∷ b'1' ∷ [], raw1)
    ∷ (b'r' ∷ b'a' ∷ b'w' ∷ b'2' ∷ [], raw2)
    ∷ (b'r' ∷ b'a' ∷ b'w' ∷ b'3' ∷ [], raw3)
    ∷ []

unfoldable pub shell_command : List (List ℕ × ShellCommand) → List ℕ → ShellCommand
shell_command [] str = unknown_command
shell_command (entry ∷ entries) str =
    if same_string str entry.0 then entry.1 else shell_command entries str

-- `gpio`: the pin and the value are `uint8`s.
unfoldable pub gpio_command : ℕ → ℕ → Output
gpio_command ch value =
    let on = if value % 256 == 0 then 0 else 1 in
    if ch % 256 == 16 then gpio16_output_set on else gpio_output_set (ch % 256) on

-- What a command does to the globals, with the line for its words.
unfoldable pub run_command : Devices → List ℕ → ShellCommand → Globals → Globals
unfolding command_word gpio_command
run_command d str gpio g =
    let set = gpio_command (d.atoi (command_word str 1)) (d.atoi (command_word str 2)) in
    record g { outputs = set ∷ g.outputs }
run_command d str ota g = call rboot_ota_start g
run_command d str restart g = call system_restart g
run_command d str unpair g = record g {
  pairing = cf_pair_init d.random g.pairing;
  current_mode = mode_sta_unpaired;
}
run_command d str init_command g =
    let written = call (config_write g.config) (record g { current_mode = mode_booting }) in
    call system_restart written
run_command d str debugon g = record g { debug = 1; config = record g.config { debug = 1 } }
run_command d str debugoff g = record g { debug = 0; config = record g.config { debug = 0 } }
run_command d str saveconfig g = call (config_write g.config) g
run_command d str readconfig g =
    let read = d.config_read g.config in record g { config = read; debug = read.debug }
run_command d str help g = g
run_command d str pwm g = g
run_command d str sxinit g = g
run_command d str sx g = g
run_command d str config_command g = g
run_command d str ip_command g = g
run_command d str info_command g = g
run_command d str raw0 g = g
run_command d str raw1 g = g
run_command d str raw2 g = g
run_command d str raw3 g = g
run_command d str unknown_command g = g

-- `ProcessCommand`.
unfoldable pub process_command : Devices → List ℕ → Globals → Globals
unfolding command_word run_command shell_command
process_command d str g = run_command d str (shell_command command_names (command_word str 0)) g

-- The lines that are handed to `ProcessCommand`, each with the zero that ends it.
unfoldable pub run_lines : Devices → List (List ℕ) → Globals → Globals
unfolding process_command
run_lines d [] g = g
run_lines d (line ∷ lines) g = run_lines d lines (process_command d (line ++ (0 ∷ [])) g)

-- What a sequence of characters from the serial line does to the globals.
unfoldable pub type_characters : Devices → List ℕ → Globals → Outcome Globals
unfolding entered_lines run_lines
type_characters d xs g = do lines ← entered_lines xs new_shell; ok (run_lines d lines g)
