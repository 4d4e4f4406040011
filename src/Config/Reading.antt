-- ===== src/Config/Reading.antt =====
-- A written configuration read back.
use quickstructs.Prelude.{
  ℕ, ◌%◌, ◌^◌, ◌<◌, ◌≡◌, refl, ap, ◌∙◌, true, false, Option, none, some, List, [], lt→ltb, ℤ, pos,
  negsuc, arith,
}
use quickstructs.Text.{Text, stoi, int_of}
use quickstructs.Text.Numbers.{decimal, stoi-decimal}
use quickstructs.Toml.{get_value, value_or}
use quickstructs.Toml.Lookup.{first_value}
use quickstructs.Toml.RoundTrip.{Section, entries, render, AreSections, load-render}
use quickstructs.Config.{
  Config, make_config, parse_config, value_or_false, network, ip, port, get_market_ip, port_of_int,
  port_of, get_market_port,
}

port_of_int-lt : (o : Option ℤ) → port_of_int o < 2 ^ 16
port_of_int-lt none = omega arith
port_of_int-lt (some (pos n)) = omega arith
port_of_int-lt (some (negsuc n)) = omega arith

port_of-lt : (o : Option Text) → port_of o < 2 ^ 16
port_of-lt none = omega arith
port_of-lt (some s) = port_of_int-lt (stoi s)

-- The port is a 16-bit number, and 0 where the file has no port or none that `stoi` reads.
pub get_market_port-lt :
    (c : Config)
    → (get_market_port c < 2 ^ 16)
      × (get_value c.parser network port ≡ none → get_market_port c ≡ 0)
      × ((s : Text)
          → get_value c.parser network port ≡ some s
          → stoi s ≡ none
          → get_market_port c ≡ 0)
unfolding get_market_port
get_market_port-lt c = (
  port_of-lt (get_value c.parser network port),
  λ e. ap port_of e,
  λ s e f. ap port_of e ∙ ap port_of_int f,
)

port_of-decimal : (n : ℕ) → n < 2 ^ 31 → port_of (some (decimal n)) ≡ n % 2 ^ 16
port_of-decimal n l =
    let fits : int_of false n ≡ some (pos n) = rw (lt→ltb n (2 ^ 31) l) refl in
    ap port_of_int (stoi-decimal n ∙ fits)

-- A configuration file that is written from sections that can be read back (AreSections), with an address
-- and a decimal port below 2^31 in the section `network`, is parsed without an error, and gives this
-- address, and the port modulo 2^16.
pub get_market_port-render :
    (ss : List Section) (n : ℕ) (address : Text)
    → AreSections ss
    → n < 2 ^ 31
    → first_value network port (entries ss) ≡ some (decimal n)
    → first_value network ip (entries ss) ≡ some address
    → ((parse_config (make_config (some (render ss)))).0 ≡ true)
      × (get_market_ip (parse_config (make_config (some (render ss)))).1 ≡ address)
      × (get_market_port (parse_config (make_config (some (render ss)))).1 ≡ n % 2 ^ 16)
unfolding parse_config get_market_ip get_market_port
get_market_port-render ss n address h l e f =
    let r = load-render ss h in
    (
      ap value_or_false r.0,
      ap (value_or []) (r.2 network ip ∙ f),
      ap port_of (r.2 network port ∙ e) ∙ port_of-decimal n l,
    )
