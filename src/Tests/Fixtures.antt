-- ===== src/Tests/Fixtures.antt =====
-- A platform, a codec and an invoice on which the definitions run.
use x402_xec.Common.{ℕ, zero, suc, true, none, some, [], ◌∷◌, ◌++◌, Text, codes}
use x402_xec.Core.Json.{nonneg, Json, num, str, obj, end, field}
use x402_xec.Core.Resource.{Platform, ResourceRequest}
use x402_xec.Core.Schemas.{Invoice}
use x402_xec.Core.CashAddr.{AddressCodec}
use x402_xec.Core.InvoiceStore.{InvoiceRecord, issued}
use x402_xec.Core.Chronik.{RawTx}

abbrev pub repeat : ℕ → ℕ → Text
repeat zero c = []
repeat (suc n) c = c ∷ repeat n c

abbrev pub hash_a : Text
hash_a = repeat 64 b'a'

abbrev pub hash_b : Text
hash_b = repeat 64 b'b'

abbrev pub txid_1 : Text
txid_1 = repeat 64 b'1'

abbrev pub hash_20 : Text
hash_20 = repeat 40 b'0'

abbrev pub address_q : Text
address_q = codes "ecash:" ++ repeat 42 b'q'

-- Every text has one digest here, and every URL is the server's origin.
abbrev pub flat_platform : Platform
flat_platform = record {
  sha256_hex = λ text. hash_a;
  parse_url = λ text. some (record {
    protocol = codes "https:";
    username = [];
    password = [];
    pathname = codes "/";
    search = [];
    hash = [];
    origin = codes "https://shop";
  });
}

-- One address, of one hash.
abbrev pub one_address : AddressCodec
one_address = record {
  decode =
      λ address. some (record { prefix = codes "ecash"; kind = codes "p2pkh"; hash = hash_20 });
  encode = λ kind hash. some address_q;
}

abbrev pub invoice_a : InvoiceRecord
invoice_a = record {
  invoice_hash = hash_a;
  nonce = repeat 22 b'n';
  resource_hash = hash_b;
  amount_sats = 1000;
  pay_to = address_q;
  network = codes "xec:mainnet";
  scheme = codes "exact";
  issued_at = 100;
  expires_at = 160;
  state = issued;
  settled_txid = none;
  settled_at = none;
  derivation_index = some 0;
}

abbrev pub invoice_b : InvoiceRecord
invoice_b = record invoice_a {
  invoice_hash = hash_b;
  nonce = repeat 22 b'm';
  pay_to = codes "ecash:p";
  derivation_index = some 1;
}

abbrev pub proof_1 : Json
proof_1 = obj (
    field (codes "x402Version") (num (nonneg 1)) (
      field (codes "network") (str (codes "xec:mainnet"))
        (field (codes "invoiceHash") (str hash_a) (field (codes "txid") (str txid_1) end))))

abbrev pub payment : RawTx
payment = record {
  txid = some txid_1;
  outputs = some (
      record { sats = 546; output_script = codes "6A"; token = none }
      ∷ record {
        sats = 1000;
        output_script = codes "76A914" ++ hash_20 ++ codes "88AC";
        token = none;
      }
      ∷ []);
  block = none;
  is_final = some true;
  time_first_seen = nonneg 110;
}

abbrev pub invoice_q : Invoice
invoice_q = record {
  version = 1;
  scheme = codes "exact";
  network = codes "xec:mainnet";
  resource_hash = hash_a;
  amount_sats = codes "1000";
  pay_to = address_q;
  nonce = repeat 22 b'n';
  issued_at = 100;
  expires_at = 160;
}

abbrev pub root_request : ResourceRequest
root_request = record {
  server_origin = codes "https://shop";
  method = codes "get";
  path = codes "/";
  query = none;
  body = none;
}
