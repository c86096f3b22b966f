-- ===== src/LogParser/Counts/Order.antt =====
-- Entries can be sorted by their counts.
use xray_exporter.Common.{arith}
use xray_exporter.Common.Sort.{Sorting, Order, insertion}
use xray_exporter.LogParser.Counts.{more_often}

pub more_often-Order : Order more_often
more_often-Order = record { asym = λ a b h. ground arith; trans = λ a b c h k. ground arith }

-- One of the sorts.
abbrev pub sort_entries : Sorting more_often
sort_entries = insertion more_often more_often-Order
