-- ===== src/Domain/Examples.antt =====
-- Runs of `extract_domain`, and its theorem at a concrete URL.
use torrent_builder.Common.{◌≡◌, refl, [], codes}
use torrent_builder.Text.{find_byte, rfind_byte, find_text}
use torrent_builder.Domain.{authority_from, host_port_of, host_of, extract_domain}

program : Unit {0}
unfolding find_byte rfind_byte find_text authority_from host_port_of host_of extract_domain
program = tt

domain_of_url :
    extract_domain (codes "udp://Tracker.example.com:1337/announce") ≡ codes "Tracker.example.com"
unfolding program
domain_of_url = refl

domain_of_ipv6 : extract_domain (codes "http://[::1]:80/announce") ≡ codes "::1"
unfolding program
domain_of_ipv6 = refl

no_scheme : extract_domain (codes "tracker.example.com") ≡ []
unfolding program
no_scheme = refl

no_host : extract_domain (codes "http://") ≡ []
unfolding program
no_host = refl
