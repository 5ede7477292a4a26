-- ===== src/Shell/Texts.antt =====
-- The fixed texts of src/kernel/shell/shell.cpp, and those of `_sdio_report_data_error` in src/sd/sd.cpp.
use Prim.Native.String.{String}
use raspberry_pi_gaming_cons.Common.{List, [], ◌∷◌}
use raspberry_pi_gaming_cons.Sd.{
  Status, success, timeout, crc_error, index_error, not_expected, data_timeout_error,
  data_crc_error, data_end_bit_error,
}

-- `print_banner`
abbrev pub banner_text : List String
banner_text =
    "kehinde-kernel v1.1.1\r\n" ∷ "Authored by Kehinde Adeoso\r\n"
    ∷ "Finished May 13, 2026. Updated June 2, 2026\r\n" ∷ "Type 'help' for a list of commands.\r\n"
    ∷ []

-- `cmd_help`
abbrev pub help_text : List String
help_text =
    "Commands:\r\n" ∷ "  ls [path]              list directory\r\n"
    ∷ "  pwd                    print working directory\r\n"
    ∷ "  cd <path>              change directory\r\n"
    ∷ "  mkdir <name>           create directory\r\n"
    ∷ "  touch <name>           create empty file\r\n"
    ∷ "  write <file> <text>    write text to file\r\n"
    ∷ "  cat <file>             print file contents\r\n"
    ∷ "  rm <name>              remove file or empty directory\r\n"
    ∷ "  clear                  clear the screen\r\n"
    ∷ "  kernel                 show kernel info\r\n"
    ∷ "  uptime                 print the uptime of the kernel\r\n"
    ∷ "  meminfo                print PMM/heap capacity-planning figures\r\n"
    ∷ "  crash                  trigger a deliberate BRK exception (panic handler test)\r\n"
    ∷ "  resolution             print the display's current physical resolution\r\n"
    ∷ "  setres <w> <h>         request a new physical/virtual resolution\r\n"
    ∷ "  fill <r> <g> <b>       fill the whole framebuffer with a color\r\n"
    ∷ "  hline <row>            draw a white test line across the given row\r\n"
    ∷ "  shutdown               halt the system\r\n"
    ∷ "  help                   show this message\r\n" ∷ []

-- The texts between the name of the function and the end of the report.
abbrev pub data_error_text : Status → String
data_error_text timeout = "Command timed out.\r\n"
data_error_text crc_error = "Command CRC error.\r\n"
data_error_text index_error = "Command index error.\r\n"
data_error_text data_timeout_error = "Data timeout.\r\n"
data_error_text data_crc_error = "Data CRC error.\r\n"
data_error_text data_end_bit_error = "Data end bit error.\r\n"
data_error_text success = "Unexpected command status.\r\n"
data_error_text not_expected = "Unexpected command status.\r\n"

-- `_sdio_report_data_error`
abbrev pub report_data_error : String → Status → List String
report_data_error who status = "[" ∷ who ∷ "]: " ∷ data_error_text status ∷ []
