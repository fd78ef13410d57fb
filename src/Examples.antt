-- ===== src/Examples.antt =====
-- Runs of the code on concrete words, and the theorems at concrete inputs.
mod Number
mod Value
mod Ip
mod Cidr
mod Telecom
mod Provider
mod Hardware
mod Word
mod Ouigen
