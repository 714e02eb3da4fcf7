-- ===== src/Error.antt =====
-- src/include/riak_error.h and riak_strerror of src/riak_error.c: the error codes of the library.
pub mod Names
use Prim.Native.String.{String}
use riak_c_client.Base.{
  ℕ, Bool, true, false, Option, none, some, List, [], ◌∷◌, ◌&&◌, ltb, leb, get_elem?, if◌then◌else◌,
}

-- `riak_error_enum`, less its sentinel.
pub data RiakError : Type 0 where
  eriak_ok eriak_test_failure eriak_out_of_range eriak_dns_resolution : RiakError
  eriak_connect eriak_out_of_memory eriak_read eriak_write eriak_event : RiakError
  eriak_no_event eriak_no_ping eriak_logging eriak_uninitialized : RiakError
  eriak_server_error eriak_message_format eriak_thread eriak_invalid : RiakError

-- The number that C gives to an enumerator.
unfoldable pub error_code : RiakError → ℕ
error_code eriak_ok = 0
error_code eriak_test_failure = 1
error_code eriak_out_of_range = 2
error_code eriak_dns_resolution = 3
error_code eriak_connect = 4
error_code eriak_out_of_memory = 5
error_code eriak_read = 6
error_code eriak_write = 7
error_code eriak_event = 8
error_code eriak_no_event = 9
error_code eriak_no_ping = 10
error_code eriak_logging = 11
error_code eriak_uninitialized = 12
error_code eriak_server_error = 13
error_code eriak_message_format = 14
error_code eriak_thread = 15
error_code eriak_invalid = 16

-- `ERIAK_LAST_ERRORNUM`
abbrev pub eriak_last_errornum : ℕ
eriak_last_errornum = 17

-- `errmsgs`
abbrev pub errmsgs : List String
errmsgs =
    "No Error" ∷ "Test Failure" ∷ "Value out of Range" ∷ "Problems resolving host name/port number"
    ∷ "Connection Error" ∷ "Out of Memory" ∷ "Read error" ∷ "Write error"
    ∷ "Asynchronous event error" ∷ "No registered asynchronous event error" ∷ "Ping failure error"
    ∷ "Logging failure" ∷ "Uninitialized Value" ∷ "An error was returned from the server"
    ∷ "Message Format Error" ∷ "Threading Error" ∷ "Invalid Value"
    ∷ "SENTINEL FOR LAST ERROR MESSAGE" ∷ []

-- `riak_strerror` at a value of the enumeration's integer type; `none` is a read outside the table.
pub strerror : ℕ → Option String
strerror err =
    if leb 0 err && ltb err eriak_last_errornum
    then get_elem? errmsgs err
    else some "<Unknown Error>"

-- `if (err)` tests whether a code is not ERIAK_OK.
abbrev pub failed : RiakError → Bool
failed eriak_ok = false
failed _ = true
