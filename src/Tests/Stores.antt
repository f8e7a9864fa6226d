-- ===== src/Tests/Stores.antt =====
-- The request for a name at a concrete input.
use setinstone.Prelude.{◌≡◌, refl, [], Bytes, bytes_eq, codes}
use setinstone.Prelude.Outcome.{ok}
use setinstone.Address.{is_valid, checksum}
use setinstone.Address.Base58.{base58_decode}
use setinstone.Message.{Message, query, query_name_request}
use setinstone.Resolver.{get_query_name_request_from_name, split}
use setinstone.Tests.Samples.{toy}
use setinstone.Tests.World.{owner}

abbrev pub name : Bytes
name = codes "/156xcPPiPtFtZSbe8KTm4SNhBVdpZPbVxk/n"

abbrev pub request : Message
request = record {
  timestamp = [];
  address = owner;
  message_type = query_name_request;
  payload = query name [];
  public_key = [];
  signature = [];
}

pub name-parsed : get_query_name_request_from_name toy name ≡ ok request
unfolding get_query_name_request_from_name split is_valid base58_decode checksum toy bytes_eq
name-parsed = refl
