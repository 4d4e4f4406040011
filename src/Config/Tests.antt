-- ===== src/Config/Tests.antt =====
-- A configuration file.
use quickstructs.Prelude.{ℕ, ◌≡◌, ◌≢◌, refl, true, some, List, [], ◌∷◌, arith}
use quickstructs.Text.{Text, codes, equal, trim_left, trim_right}
use quickstructs.Text.Trim.{IsTrimmed}
use quickstructs.Text.Numbers.{decimal, digits_of}
use quickstructs.Toml.Lookup.{first_value}
use quickstructs.Toml.RoundTrip.{Section, entries, render, AreSections}
use quickstructs.Config.{
  make_config, parse_config, network, ip, port, get_market_ip, get_market_port,
}
use quickstructs.Config.Reading.{get_market_port-render}

abbrev document : List Section
document = record { name = network; table = (ip, codes "::1") ∷ (port, codes "65616") ∷ [] } ∷ []

not_nil : (c : ℕ) (s : Text) → c ∷ s ≢ []
not_nil c s e = ground (arith, e)

names-IsTrimmed : IsTrimmed network × IsTrimmed ip × IsTrimmed port
unfolding trim_left trim_right
names-IsTrimmed = (
  record { left = refl; right = refl },
  record { left = refl; right = refl },
  record { left = refl; right = refl },
)

document-AreSections : AreSections document
document-AreSections = (
  record {
    trimmed = names-IsTrimmed.0;
    some_name = not_nil b'n' (codes "etwork");
    no_bracket = (refl, (refl, (refl, (refl, (refl, (refl, (refl, record {})))))));
    no_newline = (refl, (refl, (refl, (refl, (refl, (refl, (refl, record {})))))));
  },
  (
    record {
      trimmed = names-IsTrimmed.1;
      some_key = not_nil b'i' (codes "p");
      no_equals = (refl, (refl, record {}));
      no_bracket = (refl, (refl, record {}));
      no_comment = (refl, (refl, record {}));
      no_newline = (refl, (refl, record {}));
    },
    record {
      no_bracket = (refl, (refl, (refl, record {})));
      no_comment = (refl, (refl, (refl, record {})));
      no_newline = (refl, (refl, (refl, record {})));
    },
    (
      record {
        trimmed = names-IsTrimmed.2;
        some_key = not_nil b'p' (codes "ort");
        no_equals = (refl, (refl, (refl, (refl, record {}))));
        no_bracket = (refl, (refl, (refl, (refl, record {}))));
        no_comment = (refl, (refl, (refl, (refl, record {}))));
        no_newline = (refl, (refl, (refl, (refl, record {}))));
      },
      record {
        no_bracket = (refl, (refl, (refl, (refl, (refl, record {})))));
        no_comment = (refl, (refl, (refl, (refl, (refl, record {})))));
        no_newline = (refl, (refl, (refl, (refl, (refl, record {})))));
      },
      record {},
    ),
  ),
  record {},
)

ip_first : first_value network ip (entries document) ≡ some (codes "::1")
unfolding equal
ip_first = refl

port_first : first_value network port (entries document) ≡ some (decimal 65616)
unfolding equal decimal digits_of
port_first = refl

get_market_port-render_example :
    ((parse_config (make_config (some (render document)))).0 ≡ true)
    × (get_market_ip (parse_config (make_config (some (render document)))).1 ≡ codes "::1")
    × (get_market_port (parse_config (make_config (some (render document)))).1 ≡ 80)
get_market_port-render_example =
    get_market_port-render document 65616 (codes "::1") document-AreSections (omega arith)
      port_first ip_first
