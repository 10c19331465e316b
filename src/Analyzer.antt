-- ===== src/Analyzer.antt =====
-- The protocol analyzers: analyzer/tcp and analyzer/udp.
pub mod Socks
pub mod Tls
pub mod Trojan
pub mod Wireguard
pub mod Openvpn
pub mod Udpflow
pub mod Fet
pub mod Ssh
pub mod Http
pub mod Dns
pub mod Quic
pub mod Values
