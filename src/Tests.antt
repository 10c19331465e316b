-- ===== src/Tests.antt =====
-- Runs of the models at concrete inputs, and the properties at inputs that meet their hypotheses.
mod Utils
mod Trojan
mod Wireguard
mod Openvpn
mod Engine
mod Risk
mod Socks
mod Ruleset
mod Tls
mod Manager
mod Response
mod Udpflow
mod Fet
mod Ssh
mod Http
mod Dns
mod Quic
mod Allowlist
mod Inventory
