-- ===== src/Service/Methods/Table.antt =====
-- The methods of the trait `LanguageServer`, in the order of src/lib.rs, with the types of their
-- parameters and results as they are written there.
use tower_lsp.Base.{String, List, [], ◌∷◌, ◌++◌, none, some}
use tower_lsp.Service.Methods.{TraitItem, function, required, ignored, unimplemented}

abbrev request_item : String → String → String → String → TraitItem
request_item name handler params result = function (record {
  rpc_name = name;
  handler_name = handler;
  params = some params;
  result = some result;
  body = unimplemented;
})

abbrev notification_item : String → String → String → TraitItem
notification_item name handler params = function (record {
  rpc_name = name;
  handler_name = handler;
  params = some params;
  result = none;
  body = ignored;
})

unfoldable pub lifecycle_methods : List TraitItem
lifecycle_methods =
    function (record {
      rpc_name = "initialize";
      handler_name = "initialize";
      params = some "InitializeParams";
      result = some "Result<InitializeResult>";
      body = required;
    })
    ∷ notification_item "initialized" "initialized" "InitializedParams"
    ∷ function (record {
      rpc_name = "shutdown";
      handler_name = "shutdown";
      params = none;
      result = some "Result<()>";
      body = required;
    })
    ∷ []

unfoldable pub synchronization_methods : List TraitItem
synchronization_methods =
    notification_item "textDocument/didOpen" "did_open" "DidOpenTextDocumentParams"
    ∷ notification_item "textDocument/didChange" "did_change" "DidChangeTextDocumentParams"
    ∷ notification_item "textDocument/willSave" "will_save" "WillSaveTextDocumentParams"
    ∷ request_item "textDocument/willSaveWaitUntil" "will_save_wait_until"
        "WillSaveTextDocumentParams" "Result<Option<Vec<TextEdit>>>"
    ∷ notification_item "textDocument/didSave" "did_save" "DidSaveTextDocumentParams"
    ∷ notification_item "textDocument/didClose" "did_close" "DidCloseTextDocumentParams"
    ∷ []

unfoldable pub navigation_methods : List TraitItem
navigation_methods =
    request_item "textDocument/declaration" "goto_declaration" "GotoDeclarationParams"
      "Result<Option<GotoDeclarationResponse>>"
    ∷ request_item "textDocument/definition" "goto_definition" "GotoDefinitionParams"
        "Result<Option<GotoDefinitionResponse>>"
    ∷ request_item "textDocument/typeDefinition" "goto_type_definition" "GotoTypeDefinitionParams"
        "Result<Option<GotoTypeDefinitionResponse>>"
    ∷ request_item "textDocument/implementation" "goto_implementation" "GotoImplementationParams"
        "Result<Option<GotoImplementationResponse>>"
    ∷ request_item "textDocument/references" "references" "ReferenceParams"
        "Result<Option<Vec<Location>>>"
    ∷ request_item "textDocument/prepareCallHierarchy" "prepare_call_hierarchy"
        "CallHierarchyPrepareParams" "Result<Option<Vec<CallHierarchyItem>>>"
    ∷ []

unfoldable pub hierarchy_methods : List TraitItem
hierarchy_methods =
    request_item "callHierarchy/incomingCalls" "incoming_calls" "CallHierarchyIncomingCallsParams"
      "Result<Option<Vec<CallHierarchyIncomingCall>>>"
    ∷ request_item "callHierarchy/outgoingCalls" "outgoing_calls" "CallHierarchyOutgoingCallsParams"
        "Result<Option<Vec<CallHierarchyOutgoingCall>>>"
    ∷ request_item "textDocument/prepareTypeHierarchy" "prepare_type_hierarchy"
        "TypeHierarchyPrepareParams" "Result<Option<Vec<TypeHierarchyItem>>>"
    ∷ request_item "typeHierarchy/supertypes" "supertypes" "TypeHierarchySupertypesParams"
        "Result<Option<Vec<TypeHierarchyItem>>>"
    ∷ request_item "typeHierarchy/subtypes" "subtypes" "TypeHierarchySubtypesParams"
        "Result<Option<Vec<TypeHierarchyItem>>>"
    ∷ request_item "textDocument/documentHighlight" "document_highlight" "DocumentHighlightParams"
        "Result<Option<Vec<DocumentHighlight>>>"
    ∷ []

unfoldable pub document_methods : List TraitItem
document_methods =
    request_item "textDocument/documentLink" "document_link" "DocumentLinkParams"
      "Result<Option<Vec<DocumentLink>>>"
    ∷ request_item "documentLink/resolve" "document_link_resolve" "DocumentLink"
        "Result<DocumentLink>"
    ∷ request_item "textDocument/hover" "hover" "HoverParams" "Result<Option<Hover>>"
    ∷ request_item "textDocument/codeLens" "code_lens" "CodeLensParams"
        "Result<Option<Vec<CodeLens>>>"
    ∷ request_item "codeLens/resolve" "code_lens_resolve" "CodeLens" "Result<CodeLens>"
    ∷ request_item "textDocument/foldingRange" "folding_range" "FoldingRangeParams"
        "Result<Option<Vec<FoldingRange>>>"
    ∷ request_item "textDocument/selectionRange" "selection_range" "SelectionRangeParams"
        "Result<Option<Vec<SelectionRange>>>"
    ∷ request_item "textDocument/documentSymbol" "document_symbol" "DocumentSymbolParams"
        "Result<Option<DocumentSymbolResponse>>"
    ∷ []

unfoldable pub token_methods : List TraitItem
token_methods =
    request_item "textDocument/semanticTokens/full" "semantic_tokens_full" "SemanticTokensParams"
      "Result<Option<SemanticTokensResult>>"
    ∷ request_item "textDocument/semanticTokens/full/delta" "semantic_tokens_full_delta"
        "SemanticTokensDeltaParams" "Result<Option<SemanticTokensFullDeltaResult>>"
    ∷ request_item "textDocument/semanticTokens/range" "semantic_tokens_range"
        "SemanticTokensRangeParams" "Result<Option<SemanticTokensRangeResult>>"
    ∷ request_item "textDocument/inlineValue" "inline_value" "InlineValueParams"
        "Result<Option<Vec<InlineValue>>>"
    ∷ request_item "textDocument/inlayHint" "inlay_hint" "InlayHintParams"
        "Result<Option<Vec<InlayHint>>>"
    ∷ request_item "inlayHint/resolve" "inlay_hint_resolve" "InlayHint" "Result<InlayHint>"
    ∷ []

unfoldable pub completion_methods : List TraitItem
completion_methods =
    request_item "textDocument/moniker" "moniker" "MonikerParams" "Result<Option<Vec<Moniker>>>"
    ∷ request_item "textDocument/completion" "completion" "CompletionParams"
        "Result<Option<CompletionResponse>>"
    ∷ request_item "completionItem/resolve" "completion_resolve" "CompletionItem"
        "Result<CompletionItem>"
    ∷ request_item "textDocument/diagnostic" "diagnostic" "DocumentDiagnosticParams"
        "Result<DocumentDiagnosticReportResult>"
    ∷ request_item "workspace/diagnostic" "workspace_diagnostic" "WorkspaceDiagnosticParams"
        "Result<WorkspaceDiagnosticReportResult>"
    ∷ request_item "textDocument/signatureHelp" "signature_help" "SignatureHelpParams"
        "Result<Option<SignatureHelp>>"
    ∷ []

unfoldable pub editing_methods : List TraitItem
editing_methods =
    request_item "textDocument/codeAction" "code_action" "CodeActionParams"
      "Result<Option<CodeActionResponse>>"
    ∷ request_item "codeAction/resolve" "code_action_resolve" "CodeAction" "Result<CodeAction>"
    ∷ request_item "textDocument/documentColor" "document_color" "DocumentColorParams"
        "Result<Vec<ColorInformation>>"
    ∷ request_item "textDocument/colorPresentation" "color_presentation" "ColorPresentationParams"
        "Result<Vec<ColorPresentation>>"
    ∷ request_item "textDocument/formatting" "formatting" "DocumentFormattingParams"
        "Result<Option<Vec<TextEdit>>>"
    ∷ request_item "textDocument/rangeFormatting" "range_formatting" "DocumentRangeFormattingParams"
        "Result<Option<Vec<TextEdit>>>"
    ∷ []

unfoldable pub rename_methods : List TraitItem
rename_methods =
    request_item "textDocument/onTypeFormatting" "on_type_formatting"
      "DocumentOnTypeFormattingParams" "Result<Option<Vec<TextEdit>>>"
    ∷ request_item "textDocument/rename" "rename" "RenameParams" "Result<Option<WorkspaceEdit>>"
    ∷ request_item "textDocument/prepareRename" "prepare_rename" "TextDocumentPositionParams"
        "Result<Option<PrepareRenameResponse>>"
    ∷ request_item "textDocument/linkedEditingRange" "linked_editing_range"
        "LinkedEditingRangeParams" "Result<Option<LinkedEditingRanges>>"
    ∷ []

unfoldable pub workspace_methods : List TraitItem
workspace_methods =
    request_item "workspace/symbol" "symbol" "WorkspaceSymbolParams"
      "Result<Option<Vec<SymbolInformation>>>"
    ∷ request_item "workspaceSymbol/resolve" "symbol_resolve" "WorkspaceSymbol"
        "Result<WorkspaceSymbol>"
    ∷ notification_item "workspace/didChangeConfiguration" "did_change_configuration"
        "DidChangeConfigurationParams"
    ∷ notification_item "workspace/didChangeWorkspaceFolders" "did_change_workspace_folders"
        "DidChangeWorkspaceFoldersParams"
    ∷ request_item "workspace/willCreateFiles" "will_create_files" "CreateFilesParams"
        "Result<Option<WorkspaceEdit>>"
    ∷ notification_item "workspace/didCreateFiles" "did_create_files" "CreateFilesParams"
    ∷ request_item "workspace/willRenameFiles" "will_rename_files" "RenameFilesParams"
        "Result<Option<WorkspaceEdit>>"
    ∷ notification_item "workspace/didRenameFiles" "did_rename_files" "RenameFilesParams"
    ∷ []

unfoldable pub file_methods : List TraitItem
file_methods =
    request_item "workspace/willDeleteFiles" "will_delete_files" "DeleteFilesParams"
      "Result<Option<WorkspaceEdit>>"
    ∷ notification_item "workspace/didDeleteFiles" "did_delete_files" "DeleteFilesParams"
    ∷ notification_item "workspace/didChangeWatchedFiles" "did_change_watched_files"
        "DidChangeWatchedFilesParams"
    ∷ request_item "workspace/executeCommand" "execute_command" "ExecuteCommandParams"
        "Result<Option<Value>>"
    ∷ []

-- All of the trait.
unfoldable pub language_server : List TraitItem
unfolding lifecycle_methods synchronization_methods navigation_methods hierarchy_methods
    document_methods token_methods completion_methods editing_methods rename_methods
    workspace_methods file_methods
language_server =
    lifecycle_methods ++ synchronization_methods ++ navigation_methods ++ hierarchy_methods
    ++ document_methods ++ token_methods ++ completion_methods ++ editing_methods ++ rename_methods
    ++ workspace_methods ++ file_methods
