-- ===== src/Text.antt =====
-- Go strings as byte lists: the order and prefix tests that the store's key ranges rest on,
-- `strings.Split` at one byte, and decimal integers as `fmt.Sprintf("%d")` and
-- `strconv.ParseInt` write and read them.
pub mod Order
pub mod Parts
pub mod Decimal
