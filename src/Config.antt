-- ===== src/Config.antt =====
-- include/quick/io/Config.hh, on the parser of Toml. The lines for the log are left out.
pub mod Reading
mod Tests
use quickstructs.Prelude.{
  ℕ, ◌%◌, ◌^◌, Bool, true, false, Option, none, some, List, [], ◌∷◌, ℤ, pos, negsuc,
}
use quickstructs.Text.{Text, codes, stoi}
use quickstructs.Toml.{
  TomlParser, TomlParserError, Expected, value, unexpected, empty_parser, load, get_value, value_or,
}

-- `Config`, with the path's file, or `none` if it cannot be opened.
pub record Config : Type 0 where
  pub file : Option Text
  pub parser : TomlParser

abbrev pub make_config : Option Text → Config
make_config file = record { file = file; parser = empty_parser }

-- `parse_config`: `transform`, `or_else` and `value_or(false)` on the result of `load`.
abbrev value_or_false : Expected → Bool
value_or_false (value b) = b
value_or_false (unexpected e) = false

unfoldable pub parse_config : Config → Bool × Config
parse_config c =
    let (result, parser) = load c.file c.parser in
    (value_or_false result, record c { parser = parser })

abbrev pub network : Text
network = codes "network"

abbrev pub ip : Text
ip = codes "ip"

abbrev pub port : Text
port = codes "port"

-- `get_market_ip`
unfoldable pub get_market_ip : Config → Text
get_market_ip c = value_or [] (get_value c.parser network ip)

-- `get_market_port`: 0 for an exception of `stoi` and for a negative number; the cast to `uint16_t`.
abbrev pub port_of_int : Option ℤ → ℕ
port_of_int none = 0
port_of_int (some (pos n)) = n % 2 ^ 16
port_of_int (some (negsuc n)) = 0

abbrev pub port_of : Option Text → ℕ
port_of none = 0
port_of (some s) = port_of_int (stoi s)

unfoldable pub get_market_port : Config → ℕ
get_market_port c = port_of (get_value c.parser network port)
