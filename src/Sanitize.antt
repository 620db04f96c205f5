-- ===== src/Sanitize.antt =====
-- internal/sanitize/sanitize.go and internal/validation/validation.go.
use natsx.Base.{[], ◌++◌, if◌then◌else◌, is_empty}
use natsx.Base.Text.{Text, codes}
use natsx.Errors.{Error, nil, foreign, unnamed}

abbrev pub mask : Text
mask = codes "***"

unfoldable pub secret : Text → Text
secret value = if is_empty value then [] else mask

-- `RequireNonEmpty`; `fmt.Errorf` without `%w` makes an error that unwraps to nothing.
unfoldable pub require_non_empty : Text → Text → Error
require_non_empty field value =
    if is_empty value then foreign unnamed (field ++ codes " is required") nil else nil
