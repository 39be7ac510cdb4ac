-- ===== src/Sha256/Tests.antt =====
-- The digest of "abc" of FIPS 180-4, and of a message of two blocks.
use thalassa_workload_identi.Common.{◌≡◌, refl}
use thalassa_workload_identi.Text.Eq.{codes}
use thalassa_workload_identi.Sha256.{sum256, hex_encode}

digest_abc :
    hex_encode (sum256 (codes "abc"))
    ≡ codes "ba7816bf8f01cfea414140de5dae2223b00361a396177a9cb410ff61f20015ad"
unfolding sum256 hex_encode
digest_abc = refl

digest_two_blocks :
    hex_encode (sum256 (codes "abcdbcdecdefdefgefghfghighijhijkijkljklmklmnlmnomnopnopq"))
    ≡ codes "248d6a61d20638b8e5c026930c3e6039a33ce45964ff2167f6ecedd419db06c1"
unfolding sum256 hex_encode
digest_two_blocks = refl
