-- ===== src/Orderbook/Printing.antt =====
-- `operator<<` of `Order` in include/quick/structs/Orderbook.hh, as the text that it writes.
use quickstructs.Prelude.{suc, Bool, ◌∷◌, ◌++◌, ℤ, pos, negsuc, if◌then◌else◌}
use quickstructs.Text.{Text, codes}
use quickstructs.Text.Numbers.{decimal}
use quickstructs.Orderbook.{Order}

abbrev pub write_int : ℤ → Text
write_int (pos n) = decimal n
write_int (negsuc n) = b'-' ∷ decimal (suc n)

abbrev pub write_bool : Bool → Text
write_bool b = if b then codes "1" else codes "0"

unfoldable pub print_order : Order → Text
print_order o =
    codes "id: "
    ++ decimal o.id
    ++ codes ", level: "
    ++ write_int o.level
    ++ codes ", isbuy: "
    ++ write_bool o.is_buy
    ++ codes ", qty: "
    ++ write_int o.qty
