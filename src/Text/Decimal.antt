-- ===== src/Text/Decimal.antt =====
-- `fmt.Sprintf("%d", n)` of an int64 and `strconv.ParseInt(s, 10, 64)`.
pub mod Natural
pub mod Int
unfoldable pub use Natural.{format_nat, parse_nat}
pub use Natural.{parse-format_nat, format_nat-Lacks, format_nat-head}
