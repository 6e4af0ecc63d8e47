-- ===== src/Signature/Names.antt =====
-- The texts of cmd/signature-v4.go.
use mini_minio.Prelude.{[], ◌∷◌}
use mini_minio.Prelude.Text.{Text}

-- "AWS4-HMAC-SHA256"
abbrev pub sign_v4_algorithm : Text
sign_v4_algorithm =
    65 ∷ 87 ∷ 83 ∷ 52 ∷ 45 ∷ 72 ∷ 77 ∷ 65 ∷ 67 ∷ 45 ∷ 83 ∷ 72 ∷ 65 ∷ 50 ∷ 53 ∷ 54 ∷ []

-- "UNSIGNED-PAYLOAD"
abbrev pub unsigned_payload : Text
unsigned_payload =
    85 ∷ 78 ∷ 83 ∷ 73 ∷ 71 ∷ 78 ∷ 69 ∷ 68 ∷ 45 ∷ 80 ∷ 65 ∷ 89 ∷ 76 ∷ 79 ∷ 65 ∷ 68 ∷ []

-- "us-east-1"
abbrev pub region : Text
region = 117 ∷ 115 ∷ 45 ∷ 101 ∷ 97 ∷ 115 ∷ 116 ∷ 45 ∷ 49 ∷ []

-- "s3"
abbrev pub service : Text
service = 115 ∷ 51 ∷ []

-- "AWS4"
abbrev pub aws4 : Text
aws4 = 65 ∷ 87 ∷ 83 ∷ 52 ∷ []

-- "aws4_request"
abbrev pub aws4_request : Text
aws4_request = 97 ∷ 119 ∷ 115 ∷ 52 ∷ 95 ∷ 114 ∷ 101 ∷ 113 ∷ 117 ∷ 101 ∷ 115 ∷ 116 ∷ []

-- "X-Amz-Algorithm"
abbrev pub algorithm_key : Text
algorithm_key =
    88 ∷ 45 ∷ 65 ∷ 109 ∷ 122 ∷ 45 ∷ 65 ∷ 108 ∷ 103 ∷ 111 ∷ 114 ∷ 105 ∷ 116 ∷ 104 ∷ 109 ∷ []

-- "X-Amz-Credential"
abbrev pub credential_key : Text
credential_key =
    88 ∷ 45 ∷ 65 ∷ 109 ∷ 122 ∷ 45 ∷ 67 ∷ 114 ∷ 101 ∷ 100 ∷ 101 ∷ 110 ∷ 116 ∷ 105 ∷ 97 ∷ 108 ∷ []

-- "X-Amz-Date"
abbrev pub date_key : Text
date_key = 88 ∷ 45 ∷ 65 ∷ 109 ∷ 122 ∷ 45 ∷ 68 ∷ 97 ∷ 116 ∷ 101 ∷ []

-- "X-Amz-Expires"
abbrev pub expires_key : Text
expires_key = 88 ∷ 45 ∷ 65 ∷ 109 ∷ 122 ∷ 45 ∷ 69 ∷ 120 ∷ 112 ∷ 105 ∷ 114 ∷ 101 ∷ 115 ∷ []

-- "X-Amz-SignedHeaders"
abbrev pub signed_headers_key : Text
signed_headers_key =
    88 ∷ 45 ∷ 65 ∷ 109 ∷ 122 ∷ 45 ∷ 83 ∷ 105 ∷ 103 ∷ 110 ∷ 101 ∷ 100 ∷ 72 ∷ 101 ∷ 97 ∷ 100 ∷ 101
    ∷ 114 ∷ 115 ∷ []

-- "X-Amz-Signature"
abbrev pub signature_key : Text
signature_key =
    88 ∷ 45 ∷ 65 ∷ 109 ∷ 122 ∷ 45 ∷ 83 ∷ 105 ∷ 103 ∷ 110 ∷ 97 ∷ 116 ∷ 117 ∷ 114 ∷ 101 ∷ []

-- "X-Amz-Content-Sha256"
abbrev pub payload_hash_key : Text
payload_hash_key =
    88 ∷ 45 ∷ 65 ∷ 109 ∷ 122 ∷ 45 ∷ 67 ∷ 111 ∷ 110 ∷ 116 ∷ 101 ∷ 110 ∷ 116 ∷ 45 ∷ 83 ∷ 104 ∷ 97 ∷ 50
    ∷ 53 ∷ 54 ∷ []

-- "Authorization"
abbrev pub authorization_key : Text
authorization_key = 65 ∷ 117 ∷ 116 ∷ 104 ∷ 111 ∷ 114 ∷ 105 ∷ 122 ∷ 97 ∷ 116 ∷ 105 ∷ 111 ∷ 110 ∷ []

-- "Host"
abbrev pub host_key : Text
host_key = 72 ∷ 111 ∷ 115 ∷ 116 ∷ []

-- "host"
abbrev pub host : Text
host = 104 ∷ 111 ∷ 115 ∷ 116 ∷ []

-- "Credential="
abbrev pub credential_field : Text
credential_field = 67 ∷ 114 ∷ 101 ∷ 100 ∷ 101 ∷ 110 ∷ 116 ∷ 105 ∷ 97 ∷ 108 ∷ 61 ∷ []

-- "SignedHeaders="
abbrev pub signed_headers_field : Text
signed_headers_field =
    83 ∷ 105 ∷ 103 ∷ 110 ∷ 101 ∷ 100 ∷ 72 ∷ 101 ∷ 97 ∷ 100 ∷ 101 ∷ 114 ∷ 115 ∷ 61 ∷ []

-- "Signature="
abbrev pub signature_field : Text
signature_field = 83 ∷ 105 ∷ 103 ∷ 110 ∷ 97 ∷ 116 ∷ 117 ∷ 114 ∷ 101 ∷ 61 ∷ []
