-- ===== src/Js.antt =====
-- What the sources use of the JavaScript language and its standard library.
pub mod Text
pub mod Number
pub mod Date
pub mod Maps
